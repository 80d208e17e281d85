-- ===== src/App/Attachments.antt =====
-- src/app/Attachments.cpp: the files that a line mentions as `@path`. The reader of files is a
-- function. The extension and the name of a path are those of `std::filesystem::path`.
pub mod Images
use simple_coder.Prelude.{
  Bool, Bytes, List, Option, [], back_or, bytes_eq, codes, if◌then◌else◌, is_space, length, ltb,
  map, none, not, some, to_lower, to_string, true, ℕ, ◌&&◌, ◌++◌, ◌==◌, ◌||◌, ◌∷◌,
}
use simple_coder.Llm.Message.{ImagePart}
use simple_coder.Util.Base64.{base64_encode}

-- What follows the last slash.
unfoldable pub file_name : Bytes → Bytes → Bytes
file_name name [] = name
file_name name (c ∷ s) = if c == b'/' then file_name [] s else file_name (name ++ c ∷ []) s

-- What follows the last dot with it, the first character not counting; `found` is the extension so far.
unfoldable pub last_dot : Bytes → Bytes → Bytes
last_dot found [] = found
last_dot found (c ∷ s) = if c == b'.' then last_dot (c ∷ s) s else last_dot found s

unfoldable pub extension_of : Bytes → Bytes
unfolding last_dot bytes_eq
extension_of [] = []
extension_of (c ∷ s) = if bytes_eq (c ∷ s) (codes "..") then [] else last_dot [] s

unfoldable pub lower_ext : Bytes → Bytes
unfolding extension_of file_name
lower_ext path = map to_lower (extension_of (file_name [] path))

-- Between two tokens, with whether a token may begin, or inside one.
pub data Mode : Type 0 where
  between : Bool → Mode
  inside : Bytes → Mode

unfoldable pub push_path : Bytes → List Bytes → List Bytes
push_path [] paths = paths
push_path (c ∷ s) paths = (c ∷ s) ∷ paths

-- The loop over the line.
unfoldable pub scan : Mode → Bytes → List Bytes
unfolding push_path
scan (between start) [] = []
scan (inside path) [] = push_path path []
scan (between start) (c ∷ s) =
    let token = scan (inside []) s in
    let skipped = scan (between (is_space c)) s in if (c == b'@') && start then token else skipped
scan (inside path) (c ∷ s) =
    let done = scan (between true) s in
    let more = scan (inside (path ++ c ∷ [])) s in if is_space c then push_path path done else more

unfoldable pub find_paths : Bytes → List Bytes
unfolding scan
find_paths line = scan (between true) line

unfoldable pub is_image_path : Bytes → Bool
unfolding lower_ext bytes_eq
is_image_path path =
    let ext = lower_ext path in
    bytes_eq ext (codes ".png")
    || bytes_eq ext (codes ".jpg")
    || bytes_eq ext (codes ".jpeg")
    || bytes_eq ext (codes ".gif")
    || bytes_eq ext (codes ".webp")
    || bytes_eq ext (codes ".bmp")

unfoldable pub image_media_type : Bytes → Bytes
unfolding lower_ext bytes_eq
image_media_type path =
    let ext = lower_ext path in
    if bytes_eq ext (codes ".png")
    then codes "image/png"
    else if bytes_eq ext (codes ".jpg") || bytes_eq ext (codes ".jpeg")
    then codes "image/jpeg"
    else if bytes_eq ext (codes ".gif")
    then codes "image/gif"
    else if bytes_eq ext (codes ".webp")
    then codes "image/webp"
    else if bytes_eq ext (codes ".bmp")
    then codes "image/bmp"
    else codes "application/octet-stream"

pub record ExpandResult : Type 0 where
  pub text : Bytes
  pub images : List ImagePart
  pub attached : List Bytes
  pub errors : List Bytes

unfoldable pub add_error : Bytes → ExpandResult → ExpandResult
add_error message r = record r { errors = r.errors ++ message ∷ [] }

unfoldable pub add_image : Bytes → Bytes → ExpandResult → ExpandResult
unfolding image_media_type file_name
add_image path contents r =
    let media = image_media_type path in
    record r {
      images =
          r.images
          ++ record {
            name = file_name [] path;
            media_type = media;
            data_url = codes "data:" ++ media ++ codes ";base64," ++ base64_encode contents;
            bytes = length contents;
          }
            ∷ [];
    }

-- A newline where the contents do not end in one.
unfoldable pub end_line : Bytes → Bytes
end_line [] = []
end_line (c ∷ s) = if back_or s c == b'\n' then [] else b'\n' ∷ []

unfoldable pub add_text : Bytes → Bytes → ExpandResult → ExpandResult
unfolding end_line
add_text path contents r = record r {
  text =
      r.text
      ++ (codes "\n\nAttached file `"
          ++ path
          ++ codes "`:\n```\n"
          ++ contents
          ++ end_line contents
          ++ codes "```");
  attached = r.attached ++ path ∷ [];
}

module _ (reader : Bytes → Option Bytes) (max_image_bytes : ℕ) where
  unfoldable pub expand_read : Bytes → Option Bytes → ExpandResult → ExpandResult
  unfolding add_error add_image add_text is_image_path
  expand_read path none r = add_error (codes "Cannot read file: " ++ path) r
  expand_read path (some contents) r =
      if not (is_image_path path)
      then add_text path contents r
      else if not (max_image_bytes == 0) && ltb max_image_bytes (length contents)
      then add_error
          (codes "Image too large: "
            ++ path
            ++ codes " ("
            ++ to_string (length contents)
            ++ codes " > "
            ++ to_string max_image_bytes
            ++ codes " bytes)")
          r
      else add_image path contents r

  unfoldable pub expand_paths : List Bytes → ExpandResult → ExpandResult
  unfolding expand_read
  expand_paths [] r = r
  expand_paths (path ∷ paths) r = expand_paths paths (expand_read path (reader path) r)

  unfoldable pub expand_attachments : Bytes → ExpandResult
  unfolding expand_paths find_paths
  expand_attachments line =
      expand_paths (find_paths line)
        (record { text = line; images = []; attached = []; errors = [] })
