-- ===== src/Approvals/Reasons.antt =====
-- The test of a reason in platform-plugins/data-postgres/src/approval_commands.rs: `trim().is_empty()` of
-- a text in UTF-8, that is, whether it holds only characters that Unicode calls white space.
use masonwing.Prelude.{
  ℕ, Bool, true, false, ◌&&◌, ◌||◌, Option, none, some, [], ◌∷◌, leb, ◌==◌, if◌then◌else◌, Text,
}

-- The bytes of a character that are read.
pub data Read : Type 0 where
  none_read : Read
  byte_c2 byte_e1 byte_e19a byte_e2 byte_e280 byte_e281 byte_e3 byte_e380 : Read

abbrev pub between : ℕ → ℕ → ℕ → Bool
between low high b = leb low b && leb b high

-- What a byte leads to: whether it may stand there, and what is read then.
unfoldable pub next_read : Read → ℕ → Option Read
next_read none_read b =
    if between 9 13 b || b == 32
    then some none_read
    else if b == 194
    then some byte_c2
    else if b == 225
    then some byte_e1
    else if b == 226
    then some byte_e2
    else if b == 227
    then some byte_e3
    else none
next_read byte_c2 b = if b == 133 || b == 160 then some none_read else none
next_read byte_e1 b = if b == 154 then some byte_e19a else none
next_read byte_e19a b = if b == 128 then some none_read else none
next_read byte_e2 b = if b == 128 then some byte_e280 else if b == 129 then some byte_e281 else none
next_read byte_e280 b =
    if between 128 138 b || b == 168 || b == 169 || b == 175 then some none_read else none
next_read byte_e281 b = if b == 159 then some none_read else none
next_read byte_e3 b = if b == 128 then some byte_e380 else none
next_read byte_e380 b = if b == 128 then some none_read else none

unfoldable pub blank_from : Option Read → Text → Bool
unfolding next_read
blank_from none s = false
blank_from (some none_read) [] = true
blank_from (some _) [] = false
blank_from (some r) (b ∷ s) = blank_from (next_read r b) s

unfoldable pub is_blank : Text → Bool
unfolding blank_from
is_blank s = blank_from (some none_read) s
