-- ===== src/Discovery/Bounds.antt =====
-- agent/internal/discovery/mdns.go: the advertised name fits a DNS label, and keeps what it can of the
-- hostname.
use codex_ha_monitor.Prelude.{
  ℕ, zero, suc, ◌+◌, ◌≤◌, ◌<◌, Bool, true, false, List, [], ◌∷◌, ◌++◌, length, ltb, ◌≡◌, ◌∙◌, ap,
  sym, refl, subst, arith, length-append, length-take-le, if◌then◌else◌,
}
use mathlib.Core.List.{append_assoc, append-nil}
use codex_ha_monitor.Discovery.{
  encode_rune, encode, drop_last, cut, clean_hostname, service_instance, prefix, suffix,
  max_host_bytes,
}

-- The next rune after the ones that were kept, if there is one, would not have fitted.
abbrev pub IsFull : ℕ → List ℕ → List ℕ → Type 0
IsFull most kept [] = Unit
IsFull most kept (r ∷ rest) = most < length (encode kept) + length (encode_rune r)

abbrev pub IsLongest : ℕ → List ℕ → List ℕ → Type 0
IsLongest most runes kept =
    (rest : List ℕ) × (kept ++ rest ≡ runes) × (length (encode kept) ≤ most) × IsFull most kept rest

length-encode :
    (xs ys : List ℕ) → length (encode (xs ++ ys)) ≡ length (encode xs) + length (encode ys)
unfolding encode
length-encode [] ys = omega arith
length-encode (x ∷ xs) ys = omega (
  arith,
  length-encode xs ys,
  length-append (encode_rune x) (encode (xs ++ ys)),
  length-append (encode_rune x) (encode xs),
)

drop_last-append : (r : ℕ) (rs : List ℕ) → (last : ℕ) × (drop_last (r ∷ rs) ++ last ∷ [] ≡ r ∷ rs)
unfolding drop_last
drop_last-append r [] = (r, refl)
drop_last-append r (s ∷ rs) = let rest = drop_last-append s rs in (rest.0, ap (r ∷◌) rest.1)

IsFull-append :
    (most : ℕ) (kept rest : List ℕ) (last : ℕ)
    → IsFull most kept rest
    → most < length (encode (kept ++ (rest ++ last ∷ [])))
    → IsFull most kept (rest ++ last ∷ [])
unfolding encode
IsFull-append most kept [] last full over =
    omega (arith, length-encode kept (last ∷ []), length-append (encode_rune last) [])
IsFull-append most kept (r ∷ rest) last full over = full

IsLongest-drop_last :
    (most : ℕ) (runes shorter kept : List ℕ) (last : ℕ)
    → shorter ++ last ∷ [] ≡ runes
    → most < length (encode runes)
    → IsLongest most shorter kept
    → IsLongest most runes kept
IsLongest-drop_last most runes shorter kept last e over (rest, joined, fits, full) =
    let whole : kept ++ (rest ++ last ∷ []) ≡ runes =
      sym (append_assoc kept rest (last ∷ [])) ∙ ap (λ s. s ++ last ∷ []) joined ∙ e in
    let longer : most < length (encode (kept ++ (rest ++ last ∷ []))) =
      subst (λ s. most < length (encode s)) (sym whole) over in
    (rest ++ last ∷ [], whole, fits, IsFull-append most kept rest last full longer)

IsLongest-if :
    (b : Bool) (most : ℕ) (runes xs ys : List ℕ)
    → (b ≡ true → IsLongest most runes xs)
    → (b ≡ false → IsLongest most runes ys)
    → IsLongest most runes (if b then xs else ys)
IsLongest-if true most runes xs ys p q = p refl
IsLongest-if false most runes xs ys p q = q refl

IsLongest-whole :
    (most : ℕ) (runes : List ℕ) → length (encode runes) ≤ most → IsLongest most runes runes
IsLongest-whole most runes h = ([], append-nil runes, h, tt)

-- As many rounds as there are runes are enough.
cut-IsLongest :
    (fuel most : ℕ) (runes : List ℕ)
    → length runes ≤ fuel
    → IsLongest most runes (cut fuel most runes)
unfolding cut encode
cut-IsLongest zero most [] h = ([], refl, omega arith, tt)
cut-IsLongest zero most (r ∷ rs) h = absurd (omega arith)
cut-IsLongest (suc fuel) most [] h =
    IsLongest-if (ltb most 0) most [] _ [] (λ b. absurd (ground arith))
      (λ b. IsLongest-whole most [] (omega arith))
cut-IsLongest (suc fuel) most (r ∷ rs) h =
    let (last, e) = drop_last-append r rs in
    let one : length (drop_last (r ∷ rs) ++ last ∷ []) ≡ suc (length rs) = ap length e in
    let bound : length (drop_last (r ∷ rs)) ≤ fuel =
      omega (arith, length-append (drop_last (r ∷ rs)) (last ∷ [])) in
    IsLongest-if (ltb most (length (encode (r ∷ rs)))) most (r ∷ rs) _ (r ∷ rs)
      (λ b.
        IsLongest-drop_last most (r ∷ rs) (drop_last (r ∷ rs)) _ last e (ground arith)
          (cut-IsLongest fuel most (drop_last (r ∷ rs)) bound))
      (λ b. IsLongest-whole most (r ∷ rs) (ground arith))

length-suffix-le : (installation_id : List ℕ) → length (suffix installation_id) ≤ 9
length-suffix-le installation_id = ground (arith, length-take-le 8 installation_id)

-- The name that the agent is advertised under is the prefix, the UTF-8 of the first runes of the
-- cleaned hostname, and the start of the id. It has at most the 63 bytes of a DNS label, and either the
-- whole hostname is in it or the next rune would have made the host's part longer than what is left.
pub service_instance-IsLongest :
    (hostname installation_id : List ℕ)
    → (kept : List ℕ) × (service_instance hostname installation_id
        ≡ prefix ++ (encode kept ++ suffix installation_id))
      × (length (service_instance hostname installation_id) ≤ 63)
      × IsLongest (max_host_bytes installation_id) (clean_hostname hostname) kept
unfolding service_instance
service_instance-IsLongest hostname installation_id =
    let host = clean_hostname hostname in
    let most = max_host_bytes installation_id in
    let kept = cut (length host) most host in
    let longest : IsLongest most host kept = cut-IsLongest (length host) most host (omega arith) in
    let fits : length (encode kept) ≤ most = longest.2 in
    let name = encode kept ++ suffix installation_id in
    let bound : length (prefix ++ name) ≤ 63 = omega (
      arith,
      length-append prefix name,
      length-append (encode kept) (suffix installation_id),
      length-suffix-le installation_id,
    ) in
    (kept, refl, bound, longest)
