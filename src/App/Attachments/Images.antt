-- ===== src/App/Attachments/Images.antt =====
-- What the expansion of a line leaves.
use simple_coder.Prelude.{
  All, Bytes, Option, codes, length, some, suc, true, ℕ, ◌++◌, ◌+◌, ◌≡◌, ◌≢◌, ◌≤◌,
}
use simple_coder.Llm.Message.{ImagePart}
use simple_coder.Util.Base64.{base64_decode}
use simple_coder.App.Attachments.{ExpandResult, is_image_path}

-- An image that can be sent: its URL holds the file, which is read back from it, and it is not larger
-- than allowed.
pub record Sendable (reader : Bytes → Option Bytes) (most : ℕ) (image : ImagePart) : Type 0 where
  pub path : Bytes
  pub contents : Bytes
  pub payload : Bytes
  pub read : reader path ≡ some contents
  pub is_image : is_image_path path ≡ true
  pub url : image.data_url ≡ codes "data:" ++ image.media_type ++ codes ";base64," ++ payload
  pub decodes : base64_decode payload ≡ contents
  pub sized : image.bytes ≡ length contents
  pub allowed : most ≢ 0 → image.bytes ≤ most

module _ (reader : Bytes → Option Bytes) (most : ℕ) where
  -- The results that are recorded, of whichever kind.
  abbrev recorded : ExpandResult → ℕ
  recorded r = length r.images + length r.attached + length r.errors

  -- What one path adds.
  abbrev Step : ExpandResult → ExpandResult → Type 0
  Step r r' =
      (All (Sendable reader most) r.images → All (Sendable reader most) r'.images)
      × (recorded r' ≡ suc (recorded r))
