-- ===== src/Identity.antt =====
-- agent/internal/identity/identity.go: the installation's id, made once and then read from a file.
pub mod Stable
use Prim.Native.Nat.{bit_and, bit_or}
use Prim.Native.String
use codex_ha_monitor.Prelude.{
  ℕ, zero, suc, ◌+◌, ◌*◌, ◌/◌, ◌%◌, String, Bool, true, false, List, [], ◌∷◌, take, drop, modify,
  ◌=?=◌, ◌==◌, if◌then◌else◌, ◌≡◌, refl, Option, none, some, Result, ok, err, ltb,
}
use codex_ha_monitor.Text.{trim_space, digit}

-- A hexadecimal digit, in lower case.
unfoldable pub hex_digit : ℕ → String
hex_digit n =
    if ltb n 10
    then digit n
    else if n == 10
    then "a"
    else if n == 11
    then "b"
    else if n == 12
    then "c"
    else if n == 13
    then "d"
    else if n == 14
    then "e"
    else "f"

-- `%x` of a slice of bytes; its width is the one that the format asks for.
pub hex : List ℕ → String
hex [] = ""
hex (b ∷ bs) = String.◌++◌ (hex_digit (b / 16)) (String.◌++◌ (hex_digit (b % 16)) (hex bs))

-- The version and the variant of a random UUID.
pub mark_version : List ℕ → List ℕ
mark_version b =
    modify (λ x. bit_or (bit_and x 0x3f) 0x80) 8 (modify (λ x. bit_or (bit_and x 0x0f) 0x40) 6 b)

abbrev slice : ℕ → ℕ → List ℕ → List ℕ
slice from n b = take n (drop from b)

abbrev pub dashed : String → String → String
dashed s t = String.◌++◌ s (String.◌++◌ "-" t)

-- `randomUUID`, on the sixteen bytes that crypto/rand reads.
unfoldable pub random_uuid : List ℕ → String
unfolding mark_version hex
random_uuid random =
    let b = mark_version random in
    dashed (hex (slice 0 4 b)) (
      dashed (hex (slice 4 2 b))
        (dashed (hex (slice 6 2 b)) (dashed (hex (slice 8 2 b)) (hex (slice 10 6 b)))))

-- What the operating system answers: the directory for configurations, an error of reading the file
-- where it is there, the random bytes, and whether the directory and the file can be written.
pub record Host : Type 0 where
  pub config_dir : Result String String
  pub read_error : Option String
  pub make_dir : Option String
  pub random : Result String (List ℕ)
  pub write : Option String
  pub torn : Option String

-- `os.ReadFile` on the file that is there: its content, or none where there is no file or an error.
abbrev pub read_file : Option String → Option String → Option String
read_file none file = file
read_file (some e) file = none

-- The file's content, if it is not blank.
abbrev pub stored_id : Option String → Option String
stored_id none = none
stored_id (some content) =
    let value = trim_space content in if value =?= "" then none else some value

-- The file is written: the answer, and the file's content afterwards. A write that fails may leave
-- anything, `torn`.
pub keep_id : Option String → Option String → String → Result String String × Option String
keep_id (some e) torn value = (err e, torn)
keep_id none torn value = (ok value, some (String.◌++◌ value "\n"))

-- `LoadOrCreate` after the file had no id, on what the system answers to `MkdirAll` and `rand.Read`.
pub create :
    Host
    → Option String
    → Result String (List ℕ)
    → Option String
    → Result String String × Option String
unfolding keep_id
create h (some e) random file = (err e, file)
create h none (err e) file = (err e, file)
create h none (ok bytes) file = keep_id h.write h.torn (random_uuid bytes)

-- `LoadOrCreate` with the directory that it was told, and the id that it could read in the file.
pub use_stored :
    Host
    → Result String String
    → Option String
    → Option String
    → Result String String × Option String
unfolding create
use_stored h (err e) stored file = (err e, file)
use_stored h (ok dir) (some value) file = (ok value, file)
use_stored h (ok dir) none file = create h h.make_dir h.random file

-- `LoadOrCreate`: what it returns, and the content of its file afterwards.
unfoldable pub load_or_create : Host → Option String → Result String String × Option String
unfolding use_stored
load_or_create h file = use_stored h h.config_dir (stored_id (read_file h.read_error file)) file

uuid_of_zeros :
    random_uuid (0 ∷ 0 ∷ 0 ∷ 0 ∷ 0 ∷ 0 ∷ 0 ∷ 0 ∷ 0 ∷ 0 ∷ 0 ∷ 0 ∷ 0 ∷ 0 ∷ 0 ∷ 255 ∷ [])
    ≡ "00000000-0000-4000-8000-0000000000ff"
unfolding random_uuid hex_digit
uuid_of_zeros = refl
