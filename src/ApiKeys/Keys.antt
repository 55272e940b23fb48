-- ===== src/ApiKeys/Keys.antt =====
-- The scopes of a key, as they are typed and shown, and the secret of a new key.
use ops_sys.Base.{
  Bool, true, false, ◌≡◌, refl, ap, ◌∙◌, not, Option, none, some, List, [], ◌∷◌, map, filter, All,
  arith,
}
use ops_sys.Base.Text.{
  Text, codes, trim, is_blank, split, lacks, split-lacks, split-append, join, trim_start, is_space,
}
use ops_sys.Fleet.{ApiKey, CreateKeyResponse}
use ops_sys.Auth.{AuthState}
use ops_sys.Auth.Roles.{role_guard, Rendered, fallback, children}
use ops_sys.Server.{Answer, answered, failed}
use ops_sys.ApiKeys.{
  Page, opened, load, parse_scopes, scopes_cell, submit, dismiss, revoke, View, refused, table,
  guarded, view,
}

-- A scope that the form can hold: not empty, with no space at its ends and no comma.
pub record IsScope (t : Text) : Type 0 where
  pub given : is_blank t ≡ false
  pub trimmed : trim t ≡ t
  pub one : lacks b',' t ≡ true

split-join :
    (t : Text) (ts : List Text)
    → IsScope t
    → All IsScope ts
    → split b',' (join (codes ", ") (t ∷ ts)) ≡ t ∷ map (◌∷◌ b' ') ts
unfolding split
split-join t [] h hs = split-lacks b',' t h.one
split-join t (u ∷ ts) h hs =
    split-append b',' t (b' ' ∷ join (codes ", ") (u ∷ ts)) h.one
    ∙ rw (split-join u ts hs.0 hs.1) refl

trim_space : (t : Text) → trim (b' ' ∷ t) ≡ trim t
unfolding trim trim_start is_space
trim_space t = refl

abbrev kept : List Text → List Text
kept ts = filter (λ t. not (is_blank t)) (map trim ts)

kept-scopes : (ts : List Text) → All IsScope ts → kept (map (◌∷◌ b' ') ts) ≡ ts
kept-scopes [] hs = refl
kept-scopes (t ∷ ts) hs =
    rw (trim_space t, hs.0.trimmed, hs.0.given) (ap (◌∷◌ t) (kept-scopes ts hs.1))

cell-join :
    (t : Text) (ts : List Text)
    → is_blank t ≡ false
    → scopes_cell (t ∷ ts) ≡ join (codes ", ") (t ∷ ts)
unfolding scopes_cell
cell-join [] ts h = ground arith
cell-join (c ∷ t) [] h = refl
cell-join (c ∷ t) (u ∷ ts) h = refl

parse_scopes-join :
    (t : Text) (ts : List Text)
    → IsScope t
    → All IsScope ts
    → parse_scopes (join (codes ", ") (t ∷ ts)) ≡ t ∷ ts
unfolding parse_scopes
parse_scopes-join t ts h hs =
    ap kept (split-join t ts h hs) ∙ rw (h.trimmed, h.given) (ap (◌∷◌ t) (kept-scopes ts hs))

-- The scopes that a row of the table shows, typed into the form, are the scopes of the row, for any
-- scopes but none at all that are not empty and have no comma and no space at their ends; an empty
-- field is no scope.
pub parse_scopes-scopes_cell :
    (t : Text) (ts : List Text)
    → IsScope t
    → All IsScope ts
    → (parse_scopes (scopes_cell (t ∷ ts)) ≡ t ∷ ts) × (parse_scopes [] ≡ [])
unfolding parse_scopes split trim trim_start
parse_scopes-scopes_cell t ts h hs =
    (ap parse_scopes (cell-join t ts h.given) ∙ parse_scopes-join t ts h hs, refl)

-- What happens to the page; a call of a service carries its answer.
pub data Event : Type 0 where
  opens_form closes_form dismisses : Event
  loads : Answer (Option (List ApiKey)) → Event
  submits : Answer CreateKeyResponse → Answer (Option (List ApiKey)) → Text → Text → Event
  revokes : Bool → Answer (Unit {0}) → Answer (Option (List ApiKey)) → Text → Event

abbrev pub after : Page → Event → Page
after p opens_form = record p { show_create = true }
after p closes_form = record p { show_create = false }
after p dismisses = dismiss p
after p (loads listed) = load listed p
after p (submits created listed name scopes) = (submit created listed name scopes p).0
after p (revokes confirmed revoked listed id) = (revoke confirmed revoked listed id p).0

abbrev pub run : Page → List Event → Page
run p [] = p
run p (e ∷ es) = run (after p e) es

-- The secret that the page holds after the events: that of the last key that was made, unless the
-- guide was dismissed since.
abbrev pub next_secret : Option Text → Event → Option Text
next_secret o dismisses = none
next_secret o (submits (answered k) listed name scopes) = some k.api_key
next_secret o _ = o

abbrev pub secret : Option Text → List Event → Option Text
secret o [] = o
secret o (e ∷ es) = secret (next_secret o e) es

abbrev pub secret_of : Page → Option Text
secret_of p = elim p.new_key [ none ↦ none | some k ↦ some k.api_key ]

secret_of-after : (p : Page) (e : Event) → secret_of (after p e) ≡ next_secret (secret_of p) e
unfolding load submit revoke dismiss
secret_of-after p opens_form = refl
secret_of-after p closes_form = refl
secret_of-after p dismisses = refl
secret_of-after p (loads (answered ks)) = refl
secret_of-after p (loads (failed m)) = refl
secret_of-after p (submits (answered k) (answered ks) name scopes) = refl
secret_of-after p (submits (answered k) (failed m) name scopes) = refl
secret_of-after p (submits (failed e) listed name scopes) = refl
secret_of-after p (revokes true (answered _) (answered ks) id) = refl
secret_of-after p (revokes true (answered _) (failed m) id) = refl
secret_of-after p (revokes true (failed m) listed id) = refl
secret_of-after p (revokes false revoked listed id) = refl

secret_of-run : (p : Page) (es : List Event) → secret_of (run p es) ≡ secret (secret_of p) es
secret_of-run p [] = refl
secret_of-run p (e ∷ es) =
    secret_of-run (after p e) es ∙ ap (λ o. secret o es) (secret_of-after p e)

-- The secret on the screen.
abbrev pub seen : View → Option Text
seen refused = none
seen (table t) = t.guide

-- What a session sees of a secret.
abbrev pub seen_past : Rendered → Option Text → Option Text
seen_past fallback o = none
seen_past children o = o

pub seen-guarded : (r : Rendered) (p : Page) → seen (guarded r p) ≡ seen_past r (secret_of p)
unfolding guarded
seen-guarded fallback p = refl
seen-guarded children p = refl

-- After any events, the page shows a session that the guard of `admin` lets through the secret of
-- the last key that was made, unless the guide was dismissed since, and every other session none.
pub view-run :
    (s : AuthState) (es : List Event)
    → seen (view s (run opened es)) ≡ seen_past (role_guard (codes "admin") s) (secret none es)
unfolding view
view-run s es =
    seen-guarded (role_guard (codes "admin") s) (run opened es)
    ∙ ap (seen_past (role_guard (codes "admin") s)) (secret_of-run opened es)
