-- ===== src/Discovery.antt =====
-- agent/internal/discovery/mdns.go: the name under which an agent is advertised. A hostname is the
-- list of the runes that Go reads its bytes as.
pub mod Bounds
use Prim.Native.String
use codex_ha_monitor.Prelude.{
  String, ℕ, zero, suc, ◌+◌, ◌-◌, ◌*◌, ◌/◌, ◌%◌, Bool, ◌||◌, ◌&&◌, List, [], ◌∷◌, ◌++◌, map, length,
  take, ltb, leb, ◌==◌, if◌then◌else◌, ◌≡◌, refl,
}
use codex_ha_monitor.Text.{codes}

-- A rune in UTF-8.
pub encode_rune : ℕ → List ℕ
encode_rune r =
    if ltb r 0x80
    then r ∷ []
    else if ltb r 0x800
    then (0xc0 + r / 0x40) ∷ (0x80 + r % 0x40) ∷ []
    else if ltb r 0x1_0000
    then (0xe0 + r / 0x1000) ∷ (0x80 + r / 0x40 % 0x40) ∷ (0x80 + r % 0x40) ∷ []
    else (0xf0 + r / 0x4_0000)
      ∷ (0x80 + r / 0x1000 % 0x40)
      ∷ (0x80 + r / 0x40 % 0x40)
      ∷ (0x80 + r % 0x40)
      ∷ []

pub encode : List ℕ → List ℕ
encode [] = []
encode (r ∷ rs) = encode_rune r ++ encode rs

-- `unicode.IsControl`
abbrev is_control : ℕ → Bool
is_control r = ltb r 0x20 || (leb 0x7f r && leb r 0x9f)

-- The function of `strings.Map`.
abbrev pub clean_rune : ℕ → ℕ
clean_rune r = if r == b'.' || r == b'/' || r == b'\\' || is_control r then b'-' else r

abbrev pub is_trimmed : ℕ → Bool
is_trimmed r = r == b' ' || r == b'-'

pub trim_front : List ℕ → List ℕ
trim_front [] = []
trim_front (r ∷ rs) = if is_trimmed r then trim_front rs else r ∷ rs

abbrev pub keep_back : ℕ → List ℕ → List ℕ
keep_back r [] = if is_trimmed r then [] else r ∷ []
keep_back r (s ∷ rest) = r ∷ s ∷ rest

pub trim_back : List ℕ → List ℕ
trim_back [] = []
trim_back (r ∷ rs) = keep_back r (trim_back rs)

abbrev pub or_host : List ℕ → List ℕ
or_host [] = codes "host"
or_host (r ∷ rs) = r ∷ rs

-- The hostname before it is cut.
pub clean_hostname : List ℕ → List ℕ
unfolding trim_front trim_back
clean_hostname hostname = or_host (trim_back (trim_front (map clean_rune hostname)))

pub drop_last : List ℕ → List ℕ
drop_last [] = []
drop_last (r ∷ []) = []
drop_last (r ∷ s ∷ rs) = r ∷ drop_last (s ∷ rs)

-- `for len([]byte(hostname)) > maxHostBytes { … }`: each round drops the last rune, so that the
-- number of runes is fuel enough.
pub cut : ℕ → ℕ → List ℕ → List ℕ
cut zero most runes = runes
cut (suc fuel) most runes =
    let shorter = cut fuel most (drop_last runes) in
    if ltb most (length (encode runes)) then shorter else runes

abbrev pub prefix : List ℕ
prefix = codes "Codex Monitor "

-- `shortID`, of the id's bytes, behind a blank.
abbrev pub suffix : List ℕ → List ℕ
suffix installation_id =
    b' ' ∷ (if ltb 8 (length installation_id) then take 8 installation_id else installation_id)

-- `maxHostBytes`
abbrev pub max_host_bytes : List ℕ → ℕ
max_host_bytes installation_id = 63 - length prefix - length (suffix installation_id)

pub service_instance : List ℕ → List ℕ → List ℕ
service_instance hostname installation_id =
    let host = clean_hostname hostname in
    prefix
    ++ (encode (cut (length host) (max_host_bytes installation_id) host) ++ suffix installation_id)

-- The record that `Advertise` publishes beside the name.
unfoldable txt_records : String → String → String → List String
txt_records installation_id version schema_version =
    String.◌++◌ "installation_id=" installation_id
    ∷ String.◌++◌ "version=" version
    ∷ String.◌++◌ "schema_version=" schema_version
    ∷ "auth_required=true"
    ∷ "path=/"
    ∷ []

dotted_host :
    service_instance (codes "box.local") (codes "0123456789")
    ≡ codes "Codex Monitor box-local 01234567"
unfolding service_instance clean_hostname encode encode_rune cut drop_last
dotted_host = refl
