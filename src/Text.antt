-- ===== src/Text.antt =====
-- JavaScript strings as lists of UTF-16 code units, with the string methods that the sandbox
-- engine uses, and its contact filter (app/domain/sandboxEngine.ts, unsafeContactText).
use Prim.Native.Char.{code}
use Prim.Native.String.{String}
use furima_sandbox.Prelude.{
  ℕ, zero, suc, Bool, true, false, ◌&&◌, ◌||◌, List, [], ◌∷◌, ◌≡◌, refl, leb, ◌==◌, ℕ_discrete,
  if◌then◌else◌,
}
use mathlib.Core.List.{reverse}

abbrev pub Text : Type 0
Text = List ℕ

-- A literal of the source. Every literal here stays in the basic plane, one unit to a character.
abbrev pub text : String → Text
text String.[] = []
text (String.◌∷◌ c s) = code c ∷ text s

unfoldable pub Text-discrete : Discrete Text
unfolding ℕ_discrete
Text-discrete = hlevel ℕ_discrete

abbrev pub is_empty : Text → Bool
is_empty [] = true
is_empty (_ ∷ _) = false

-- The white space and line ends that `trim` removes.
is_space : ℕ → Bool
is_space c =
    (leb 9 c && leb c 13)
    || c == 32
    || c == 160
    || c == 0x1680
    || (leb 0x2000 c && leb c 0x200A)
    || c == 0x2028
    || c == 0x2029
    || c == 0x202F
    || c == 0x205F
    || c == 0x3000
    || c == 0xFEFF

trim_start : Text → Text
trim_start [] = []
trim_start (c ∷ cs) = let rest = trim_start cs in if is_space c then rest else c ∷ cs

-- s.trim()
unfoldable pub trim : Text → Text
unfolding is_space trim_start
trim s = reverse (trim_start (reverse (trim_start s)))

is_digit : ℕ → Bool
is_digit c = leb b'0' c && leb c b'9'

is_letter : ℕ → Bool
is_letter c = (leb b'A' c && leb c b'Z') || (leb b'a' c && leb c b'z')

is_word : ℕ → Bool
unfolding is_digit is_letter
is_word c = is_digit c || is_letter c || c == b'_'

starts_with : Text → Text → Bool
starts_with [] s = true
starts_with (p ∷ ps) [] = false
starts_with (p ∷ ps) (c ∷ cs) = p == c && starts_with ps cs

digits_from : Text → ℕ
unfolding is_digit
digits_from [] = 0
digits_from (c ∷ cs) = let rest = digits_from cs in if is_digit c then suc rest else 0

drop_units : ℕ → Text → Text
drop_units zero s = s
drop_units (suc n) [] = []
drop_units (suc n) (c ∷ cs) = drop_units n cs

is_group : Text → Bool
unfolding digits_from drop_units starts_with
is_group s = let n = digits_from s in leb 2 n && leb n 4 && starts_with (text "-") (drop_units n s)

-- `\d{2,4}-\d{2,4}-\d{3,4}` at the head.
phone_at : Text → Bool
unfolding is_group
phone_at s =
    let second = drop_units (suc (digits_from s)) s in
    let third = drop_units (suc (digits_from second)) second in
    is_group s && is_group second && leb 3 (digits_from third)

two_letters : Text → Bool
unfolding is_letter
two_letters (a ∷ b ∷ _) = is_letter a && is_letter b
two_letters _ = false

-- `[\w.-]+\.[A-Za-z]{2,}`: a dot that is not the first unit, with two letters behind it.
domain_at : Bool → Text → Bool
unfolding is_word two_letters
domain_at seen [] = false
domain_at seen (c ∷ cs) =
    (seen && c == b'.' && two_letters cs)
    || ((is_word c || c == b'.' || c == b'-') && domain_at true cs)

-- `[\w.+-]+@[\w.-]+\.[A-Za-z]{2,}` with one unit in front of the `@`, which an unanchored match
-- can always choose.
email_at : Text → Bool
unfolding domain_at
email_at (a ∷ at ∷ rest) =
    (is_word a || a == b'.' || a == b'+' || a == b'-') && at == b'@' && domain_at false rest
email_at _ = false

contact_at : Text → Bool
unfolding phone_at email_at
contact_at s =
    starts_with (text "http://") s
    || starts_with (text "https://") s
    || starts_with (text "www.") s
    || phone_at s
    || email_at s

-- The unanchored regular expression: a match at some position.
unfoldable pub unsafe_contact_text : Text → Bool
unfolding contact_at
unsafe_contact_text [] = false
unsafe_contact_text (c ∷ cs) = contact_at (c ∷ cs) || unsafe_contact_text cs

phone_is_contact : unsafe_contact_text (text "tel 090-1234-5678 now") ≡ true
unfolding unsafe_contact_text
phone_is_contact = refl

email_is_contact : unsafe_contact_text (text "me: a.b+c@mail.example.jp") ≡ true
unfolding unsafe_contact_text
email_is_contact = refl

plain_is_no_contact : unsafe_contact_text (text "thanks 12-34, a@b") ≡ false
unfolding unsafe_contact_text
plain_is_no_contact = refl

trim_test : trim (text "  two words ") ≡ text "two words"
unfolding trim
trim_test = refl
