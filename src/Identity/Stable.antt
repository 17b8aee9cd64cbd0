-- ===== src/Identity/Stable.antt =====
-- agent/internal/identity/identity.go: an id that was handed out is the one that the next start reads.
use Prim.Native.Char.{Char, code}
use Prim.Native.String
use Prim.Native.String.append
use Prim.Native.String.compare
use text.Mathlib.Text.{is_eq}
use codex_ha_monitor.Prelude.{
  ℕ, String, Bool, true, false, ◌&&◌, List, [], ◌∷◌, Option, none, some, Result, ok, err, ◌≡◌, refl,
  sym, ap, ◌∙◌, if◌then◌else◌, ◌=?=◌, ◌/◌, ◌%◌, arith, not, ◌==◌, ltb,
}
use codex_ha_monitor.Text.{trim_space, trim_left, trim_right, is_space, digit}
use codex_ha_monitor.Identity.{
  hex_digit, hex, dashed, random_uuid, Host, read_file, stored_id, keep_id, use_stored, create,
  load_or_create,
}

append_nil : (t : String) → String.◌++◌ "" t ≡ t
append_nil t = λ i. append.nil t i

append_cons :
    (c : Char) (s t : String) → String.◌++◌ (String.◌∷◌ c s) t ≡ String.◌∷◌ c (String.◌++◌ s t)
append_cons c s t = λ i. append.cons c s t i

unfoldable spaceless : String → Bool
spaceless String.[] = true
spaceless (String.◌∷◌ c s) = not (is_space (code c)) && spaceless s

spaceless-append :
    (s t : String) → spaceless s ≡ true → spaceless t ≡ true → spaceless (String.◌++◌ s t) ≡ true
unfolding spaceless
spaceless-append String.[] t p q = ap spaceless (append_nil t) ∙ q
spaceless-append (String.◌∷◌ c s) t p q =
    let rest : spaceless s ≡ true → spaceless (String.◌++◌ s t) ≡ true =
      λ h. spaceless-append s t h q in
    rw (append_cons c s t) (ground arith)

spaceless-if :
    (b : Bool) (s t : String)
    → spaceless s ≡ true
    → spaceless t ≡ true
    → spaceless (if b then s else t) ≡ true
spaceless-if true s t p q = p
spaceless-if false s t p q = q

spaceless-digit : (n : ℕ) → spaceless (digit n) ≡ true
unfolding spaceless is_space
spaceless-digit n = spaceless-if (n == 0) "0" _ refl (
    spaceless-if (n == 1) "1" _ refl (
      spaceless-if (n == 2) "2" _ refl (
        spaceless-if (n == 3) "3" _ refl (
          spaceless-if (n == 4) "4" _ refl (
            spaceless-if (n == 5) "5" _ refl (
              spaceless-if (n == 6) "6" _ refl
                (spaceless-if (n == 7) "7" _ refl (spaceless-if (n == 8) "8" "9" refl refl))))))))

spaceless-hex_digit : (n : ℕ) → spaceless (hex_digit n) ≡ true
unfolding spaceless is_space hex_digit
spaceless-hex_digit n = spaceless-if (ltb n 10) _ _ (spaceless-digit n) (
    spaceless-if (n == 10) "a" _ refl (
      spaceless-if (n == 11) "b" _ refl (
        spaceless-if (n == 12) "c" _ refl
          (spaceless-if (n == 13) "d" _ refl (spaceless-if (n == 14) "e" "f" refl refl)))))

spaceless-hex : (bytes : List ℕ) → spaceless (hex bytes) ≡ true
unfolding hex spaceless
spaceless-hex [] = refl
spaceless-hex (b ∷ bs) = spaceless-append (hex_digit (b / 16)) _ (spaceless-hex_digit (b / 16)) (
    spaceless-append (hex_digit (b % 16)) (hex bs) (spaceless-hex_digit (b % 16))
      (spaceless-hex bs))

spaceless-dashed :
    (s t : String) → spaceless s ≡ true → spaceless t ≡ true → spaceless (dashed s t) ≡ true
unfolding spaceless is_space
spaceless-dashed s t p q = spaceless-append s _ p (spaceless-append "-" t refl q)

spaceless-random_uuid : (random : List ℕ) → spaceless (random_uuid random) ≡ true
unfolding random_uuid
spaceless-random_uuid random = spaceless-dashed (hex _) _ (spaceless-hex _) (
    spaceless-dashed (hex _) _ (spaceless-hex _) (
      spaceless-dashed (hex _) _ (spaceless-hex _)
        (spaceless-dashed (hex _) (hex _) (spaceless-hex _) (spaceless-hex _))))

trim_right-kept :
    (c : Char) (s : String)
    → is_space (code c) ≡ false
    → trim_right (String.◌∷◌ c s) ≡ String.◌∷◌ c (trim_right s)
unfolding trim_right
trim_right-kept c s b = ground arith

trim_right_newline : trim_right "\n" ≡ ""
unfolding trim_right is_space
trim_right_newline = refl

trim_right-line : (s : String) → spaceless s ≡ true → trim_right (String.◌++◌ s "\n") ≡ s
unfolding spaceless
trim_right-line String.[] p = ap trim_right (append_nil "\n") ∙ trim_right_newline
trim_right-line (String.◌∷◌ c s) p =
    let rest : spaceless s ≡ true → trim_right (String.◌++◌ s "\n") ≡ s = trim_right-line s in
    let blank : is_space (code c) ≡ false = ground arith in
    let q : spaceless s ≡ true = ground arith in
    ap trim_right (append_cons c s "\n")
    ∙ trim_right-kept c (String.◌++◌ s "\n") blank
    ∙ ap (String.◌∷◌ c) (rest q)

trim_left-spaceless : (s : String) → spaceless s ≡ true → trim_left s ≡ s
unfolding spaceless trim_left
trim_left-spaceless String.[] p = refl
trim_left-spaceless (String.◌∷◌ c s) p =
    let b : is_space (code c) ≡ false = ground arith in rw b refl

starts-nonblank : (c : Char) (s t : String) → (String.◌++◌ (String.◌∷◌ c s) t =?= "") ≡ false
starts-nonblank c s t =
    ap (λ x. x =?= "") (append_cons c s t) ∙ ap is_eq (λ i. compare.cons-nil c (String.◌++◌ s t) i)

dashed-nonblank : (s t : String) → (dashed s t =?= "") ≡ false
dashed-nonblank String.[] t = ap (λ x. x =?= "") (append_nil _) ∙ starts-nonblank _ "" t
dashed-nonblank (String.◌∷◌ c s) t = starts-nonblank c s _

random_uuid-nonblank : (random : List ℕ) → (random_uuid random =?= "") ≡ false
unfolding random_uuid
random_uuid-nonblank random = dashed-nonblank _ _

stored_id-written :
    (random : List ℕ)
    → stored_id (some (String.◌++◌ (random_uuid random) "\n")) ≡ some (random_uuid random)
unfolding trim_space
stored_id-written random =
    let value = random_uuid random in
    let p : spaceless value ≡ true = spaceless-random_uuid random in
    let trimmed : trim_space (String.◌++◌ value "\n") ≡ value =
      ap trim_left (trim_right-line value p) ∙ trim_left-spaceless value p in
    let filled : (value =?= "") ≡ false = random_uuid-nonblank random in rw trimmed (rw filled refl)

use_stored-keep_id :
    (again : Host) (failed torn file_after : Option String) (random : List ℕ) (id d : String)
    → keep_id failed torn (random_uuid random) ≡ (ok id, file_after)
    → use_stored again (ok d) (stored_id file_after) file_after ≡ (ok id, file_after)
unfolding keep_id use_stored
use_stored-keep_id again (some e) torn file_after random id d h = absurd (ground arith)
use_stored-keep_id again none torn file_after random id d h =
    let file : some (String.◌++◌ (random_uuid random) "\n") ≡ file_after = ap (λ x. x.1) h in
    let same : ok (random_uuid random) ≡ ok id = ap (λ x. x.0) h in
    let read : stored_id file_after ≡ some (random_uuid random) =
      ap stored_id (sym file) ∙ stored_id-written random in
    rw read (ap (λ x. (x, file_after)) same)

create-use_stored :
    (h again : Host) (made : Option String) (random : Result String (List ℕ))
    (file file_after : Option String) (id d : String)
    → create h made random file ≡ (ok id, file_after)
    → use_stored again (ok d) (stored_id file_after) file_after ≡ (ok id, file_after)
unfolding create
create-use_stored h again (some e) random file file_after id d g = absurd (ground arith)
create-use_stored h again none (err e) file file_after id d g = absurd (ground arith)
create-use_stored h again none (ok bytes) file file_after id d g =
    use_stored-keep_id again h.write h.torn file_after bytes id d g

-- What was read in the file stands there.
stored_id-read_file :
    (error : Option String) (file : Option String) (value : String)
    → stored_id (read_file error file) ≡ some value
    → stored_id file ≡ some value
stored_id-read_file none file value h = h
stored_id-read_file (some e) file value h = absurd (ground arith)

use_stored-use_stored :
    (h again : Host) (dir : Result String String) (stored file file_after : Option String)
    (id d : String)
    → stored_id (read_file h.read_error file) ≡ stored
    → use_stored h dir stored file ≡ (ok id, file_after)
    → use_stored again (ok d) (stored_id file_after) file_after ≡ (ok id, file_after)
unfolding use_stored
use_stored-use_stored h again (err e) stored file file_after id d s g = absurd (ground arith)
use_stored-use_stored h again (ok dir) (some value) file file_after id d s g =
    let same : file ≡ file_after = ap (λ x. x.1) g in
    let read : stored_id file_after ≡ some value =
      ap stored_id (sym same) ∙ stored_id-read_file h.read_error file value s in
    rw read (ap (λ x. (x, file_after)) (ap (λ x. x.0) g))
use_stored-use_stored h again (ok dir) none file file_after id d s g =
    create-use_stored h again h.make_dir h.random file file_after id d g

-- An id that the agent was given stays its id, also one that was made because the file could not be
-- read: once it was returned, a start that finds the same directory and reads the file without an
-- error returns it again from the file that the first one left, and leaves that file alone, whatever
-- making a directory, the random source and writing would then answer.
pub load_or_create_stable :
    (h again : Host) (file file_after : Option String) (id d : String)
    → load_or_create h file ≡ (ok id, file_after)
    → again.config_dir ≡ ok d
    → again.read_error ≡ none
    → load_or_create again file_after ≡ (ok id, file_after)
unfolding load_or_create
load_or_create_stable h again file file_after id d e r readable =
    (λ i. use_stored again (r i) (stored_id (read_file (readable i) file_after)) file_after)
    ∙ use_stored-use_stored h again h.config_dir (stored_id (read_file h.read_error file)) file
        file_after id d refl e
