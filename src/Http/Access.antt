-- ===== src/Http/Access.antt =====
-- agent/internal/httpapi/server.go: what a request without the token does, and one that is no POST.
use codex_ha_monitor.Prelude.{
  ℕ, Bool, true, false, ◌&&◌, not, List, [], ◌∷◌, ◌++◌, length, drop, ◌=?=◌, if◌then◌else◌, Option,
  none, some, Bool-cases, inl, inr, ◌≡◌, ◌≢◌, ◌⊎◌, ◌∙◌, refl, sym, ap, subst, arith, eq_iff, lookup,
}
use codex_ha_monitor.Text.{has_prefix}
use codex_ha_monitor.Monitor.State.{Monitor}
use codex_ha_monitor.Http.Messages.{HttpRequest, Response, World, Served, reply_with, only_status}
use codex_ha_monitor.Http.Reads.{handle_root}
use codex_ha_monitor.Http.Server.{
  route, handle, after_redirect, serve_mux, bearer, trim_prefix, same_codes, is_unauthorized,
  unauthorized, authenticate, with_cors, is_post_path, serve,
}

same_codes_sound : (s t : List ℕ) → same_codes s t ≡ true → s ≡ t
unfolding same_codes
same_codes_sound [] [] h = refl
same_codes_sound [] (d ∷ t) h = cc
same_codes_sound (c ∷ s) [] h = cc
same_codes_sound (c ∷ s) (d ∷ t) h =
    let tail : same_codes s t ≡ true → s ≡ t = same_codes_sound s t in ground arith

same_codes_refl : (s : List ℕ) → same_codes s s ≡ true
unfolding same_codes
same_codes_refl [] = refl
same_codes_refl (c ∷ s) = ground (arith, same_codes_refl s)

has_prefix-split : (p h : List ℕ) → has_prefix p h ≡ true → h ≡ p ++ drop (length p) h
unfolding has_prefix
has_prefix-split [] h e = refl
has_prefix-split (c ∷ p) [] e = cc
has_prefix-split (c ∷ p) (d ∷ h) e =
    let first : d ≡ c = ground arith in
    let rest : has_prefix p h ≡ true = ground arith in
    ap (◌∷ h) first ∙ ap (c ∷◌) (has_prefix-split p h rest)

has_prefix-append : (p s : List ℕ) → has_prefix p (p ++ s) ≡ true
unfolding has_prefix
has_prefix-append [] s = refl
has_prefix-append (c ∷ p) s = ground (arith, has_prefix-append p s)

drop-prefix : (p s : List ℕ) → drop (length p) (p ++ s) ≡ s
drop-prefix [] s = refl
drop-prefix (c ∷ p) s = drop-prefix p s

trim_prefix-append : (p s : List ℕ) → trim_prefix p (p ++ s) ≡ s
unfolding trim_prefix
trim_prefix-append p s = rw (has_prefix-append p s) (drop-prefix p s)

trim_prefix-split : (p h : List ℕ) → (trim_prefix p h ≡ h) ⊎ (h ≡ p ++ trim_prefix p h)
unfolding trim_prefix
trim_prefix-split p h = elim (Bool-cases (has_prefix p h)) [
  | inl b ↦ rw (b, trim_prefix) (inr (has_prefix-split p h b))
  | inr b ↦ rw (b, trim_prefix) (inl refl)
]

-- A request passes only with the token behind the word Bearer.
is_unauthorized-exact :
    (token header : List ℕ) → is_unauthorized token header ≡ false → header ≡ bearer ++ token
unfolding is_unauthorized
is_unauthorized-exact token header h =
    let same : same_codes (trim_prefix bearer header) token ≡ true = ground arith in
    let other : same_codes (trim_prefix bearer header) header ≡ false = ground arith in
    elim (trim_prefix-split bearer header) [
      | inl e ↦
          let never : same_codes (trim_prefix bearer header) header ≡ true =
            ap (λ s. same_codes s header) e ∙ same_codes_refl header in
          absurd (ground arith)
      | inr e ↦ e ∙ ap (bearer ++◌) (same_codes_sound (trim_prefix bearer header) token same)
    ]

length-bearer : (token : List ℕ) → token ≢ bearer ++ token
length-bearer token e =
    let longer : length token ≡ length (bearer ++ token) = ap length e in absurd (omega arith)

-- And the token passes.
pub is_unauthorized-bearer : (token : List ℕ) → is_unauthorized token (bearer ++ token) ≡ false
unfolding is_unauthorized
is_unauthorized-bearer token =
    let other : ¬ (same_codes token (bearer ++ token) ≡ true) =
      λ h. length-bearer token (same_codes_sound token (bearer ++ token) h) in
    rw (trim_prefix-append bearer token, same_codes_refl token) (ground arith)

is_unauthorized-other :
    (token header : List ℕ) → header ≢ bearer ++ token → is_unauthorized token header ≡ true
is_unauthorized-other token header n = elim (Bool-cases (is_unauthorized token header)) [
  | inl b ↦ b
  | inr b ↦ absurd (n (is_unauthorized-exact token header b))
]

-- The answers to a request that has not the token: none of them reads the state, but what `ServeMux`
-- or the public page at "/" answers.
pub data Rejection (w : World) (r : HttpRequest) (m : Monitor) : Served → Type 0 where
  preflight : r.method ≡ "OPTIONS" → Rejection w r m (with_cors (reply_with m (only_status 204)))
  not_allowed : Rejection w r m (with_cors (reply_with m (only_status 405)))
  denied : r.path ≢ "/" → Rejection w r m (with_cors (reply_with m unauthorized))
  redirected :
      (response : Response)
      → r.path ≡ "/"
      → w.redirect r.path ≡ some response
      → Rejection w r m (with_cors (reply_with m response))
  public_page : r.path ≡ "/" → Rejection w r m (with_cors (reply_with m (handle_root r)))

module _ (token : List ℕ) (w : World) (r : HttpRequest) (m : Monitor) where
  Rejection-if :
      (b : Bool) (x y : Served)
      → (b ≡ true → Rejection w r m (with_cors x))
      → (b ≡ false → Rejection w r m (with_cors y))
      → Rejection w r m (with_cors (if b then x else y))
  Rejection-if true x y p q = p refl
  Rejection-if false x y p q = q refl

  root-Rejection : r.path ≡ "/" → Rejection w r m (with_cors (handle (route r.path) w r m))
  unfolding route handle lookup
  root-Rejection e =
      subst (λ path. Rejection w r m (with_cors (handle (route path) w r m))) (sym e)
        (public_page e)

  mux-Rejection :
      (answer : Option Response)
      → w.redirect r.path ≡ answer
      → r.path ≡ "/"
      → Rejection w r m (with_cors (after_redirect answer w r m))
  mux-Rejection (some response) h e = redirected response e h
  mux-Rejection none h e = root-Rejection e

  authenticate-Rejection :
      r.authorization ≢ bearer ++ token → Rejection w r m (with_cors (authenticate token w r m))
  unfolding authenticate serve_mux
  authenticate-Rejection n =
      Rejection-if (r.path =?= "/") _ _
        (λ b. mux-Rejection (w.redirect r.path) refl ((eq_iff r.path "/").0 b))
        (λ b.
          Rejection-if (is_unauthorized token r.authorization) _ _
            (λ c. denied (λ e. ground (arith, eq_iff r.path "/")))
            (λ c. absurd (n (is_unauthorized-exact token r.authorization c))))

  -- Without the exact token, no request changes the state or reaches an App Server, whatever its
  -- method and path: it is answered with a refusal, or with the public page at "/".
  pub serve-Rejection : r.authorization ≢ bearer ++ token → Rejection w r m (serve token w r m)
  unfolding serve
  serve-Rejection n =
      let through = authenticate-Rejection n in
      Rejection-if (r.method =?= "OPTIONS") _ _ (λ b. preflight ((eq_iff r.method "OPTIONS").0 b))
        (λ b.
          Rejection-if ((r.method =?= "POST") && is_post_path r.path) _ _ (λ c. through)
            (λ c.
              Rejection-if (not (r.method =?= "GET") && not (r.method =?= "HEAD")) _ _
                (λ d. not_allowed) (λ d. through)))
