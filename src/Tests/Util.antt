-- ===== src/Tests/Util.antt =====
-- Runs of the models of src/util.
use simple_coder.Prelude.{Bytes, List, [], arith, codes, false, refl, some, subst, ℕ, ◌∷◌, ◌≡◌, ◌≤◌}
use simple_coder.Util.Base64.{base64_encode, base64_decode}
use simple_coder.Util.Base64.RoundTrip.{base64_decode-encode}
use simple_coder.Util.Utf8.{encode}
use simple_coder.Util.Utf8.Encode.{IsChar, encode-IsChar}
use simple_coder.Util.Diff.{split_lines, lcs_ops, unified_diff}
use simple_coder.Util.Diff.Ops.{old_side, new_side, lcs_ops-sides}
use simple_coder.Util.Diff.Lcs.{Common, equal_count, lcs_ops-Common}
use simple_coder.Util.ThreadQueue.{Outcome, new, push, notify_one, enter_pop, test_pop, Queue}
use simple_coder.Util.ThreadQueue.Wakeup.{Reach, Step, Reach-asleep}

abbrev hello : Bytes
hello = codes "Hello"

base64_decode-encode_example : base64_decode (base64_encode hello) ≡ hello
base64_decode-encode_example = base64_decode-encode hello ground (arith)

-- U+20AC
abbrev euro : Bytes
euro = 0xE2 ∷ 0x82 ∷ 0xAC ∷ []

encode-euro : encode 0x20AC ≡ euro
unfolding encode
encode-euro = refl

euro-IsChar : IsChar euro
euro-IsChar = subst IsChar encode-euro (encode-IsChar 0x20AC (omega arith))

abbrev old_lines : List Bytes
old_lines = codes "a" ∷ codes "b" ∷ codes "c" ∷ []

abbrev new_lines : List Bytes
new_lines = codes "a" ∷ codes "x" ∷ codes "c" ∷ []

unified_diff_run :
    unified_diff (codes "a\nb\nc\n") (codes "a\nx\nc") 3 4000 ≡ codes " a\n-b\n+x\n c\n"
unfolding unified_diff split_lines lcs_ops
unified_diff_run = refl

lcs_ops-sides_example :
    (old_side (lcs_ops old_lines new_lines) ≡ old_lines)
    × (new_side (lcs_ops old_lines new_lines) ≡ new_lines)
lcs_ops-sides_example = lcs_ops-sides old_lines new_lines

lcs_ops-Common_example : 2 ≤ equal_count (lcs_ops old_lines new_lines)
lcs_ops-Common_example =
    lcs_ops-Common old_lines new_lines
      (Common.both refl (Common.skip_old (Common.skip_new (Common.both refl Common.none_left))))

-- A consumer finds the queue empty and sleeps; a producer pushes and notifies; the consumer tests.
abbrev sleeping : Queue ℕ
sleeping = (test_pop (enter_pop new)).0

abbrev woken : Queue ℕ
woken = notify_one (push 7 sleeping)

woken_takes : (test_pop woken).1 ≡ Outcome.returns (some 7)
unfolding new push notify_one enter_pop test_pop
woken_takes = refl

sleeping-Reach : Reach sleeping [] []
unfolding new enter_pop test_pop
sleeping-Reach = Reach.next (Reach.next Reach.start Step.enters_pop) (Step.tests (omega arith))

woken-Reach : Reach woken (7 ∷ []) []
unfolding new push notify_one enter_pop test_pop
woken-Reach =
    Reach.next (Reach.next sleeping-Reach (Step.pushes 7)) (Step.notifies_one (omega arith))

Reach-asleep_example : (sleeping.items ≡ []) × (sleeping.closed ≡ false)
unfolding new enter_pop test_pop
Reach-asleep_example = Reach-asleep sleeping-Reach refl refl refl (omega arith)
