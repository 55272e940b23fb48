-- ===== src/Team/Pending/Balance.antt =====
-- The calls of each form, before and after an answer.
use ops_sys.Base.{ℕ, ◌+◌, ◌≤◌, Bool, List, bit, bit_le, ◌≡◌, refl, arith}
use ops_sys.Server.{answered, failed}
use ops_sys.Calls.{sum, Change, IsLocal, After}
use ops_sys.Team.{Page}
use ops_sys.Team.Pending.{
  Reason, mount, invite, save, removal, Call, inviting, saving, removing, listing, listing_devices,
  Reply, done, lists, lists_devices, finish, respond,
}

pub data Form : Type 0 where
  invite_form edit_form : Form

-- The button of the form shows that it waits.
abbrev pub waits : Form → Page → Bool
waits invite_form p = p.inviting
waits edit_form p = p.saving

abbrev pub of_reason : Form → Reason → ℕ
of_reason invite_form invite = 1
of_reason edit_form save = 1
of_reason _ _ = 0

-- The call is one of the form's handler, or of the load that its handler awaits.
abbrev pub of_form : Form → Call → ℕ
of_form f inviting = of_reason f invite
of_form f saving = of_reason f save
of_form f removing = of_reason f removal
of_form f (listing r) = of_reason f r
of_form f (listing_devices r ps) = of_reason f r

abbrev pub calls_of : Form → List Call → ℕ
calls_of f = sum (of_form f)

-- An answer takes as many calls of the form away as its button stops to wait.
abbrev pub Balanced : Form → Change Page
Balanced f p n q m = n ≤ bit (waits f p) → bit (waits f q) + n ≡ bit (waits f p) + m

pub Balanced-IsLocal : (f : Form) → IsLocal (Balanced f)
Balanced-IsLocal f p q n n' m k k' b e e' h = omega (arith, b (omega (arith, h, e)), e, e')

finish-waits :
    (f : Form) (r : Reason) (p q : Page)
    → waits f q ≡ waits f p
    → of_reason f r ≤ bit (waits f p)
    → bit (waits f (finish r q)) + of_reason f r ≡ bit (waits f p) + 0
unfolding finish
finish-waits invite_form mount p q e h = rw e (omega arith)
finish-waits invite_form invite p q e h = omega (arith, h, bit_le (waits invite_form p))
finish-waits invite_form save p q e h = rw e (omega arith)
finish-waits invite_form removal p q e h = rw e (omega arith)
finish-waits edit_form mount p q e h = rw e (omega arith)
finish-waits edit_form invite p q e h = rw e (omega arith)
finish-waits edit_form save p q e h = omega (arith, h, bit_le (waits edit_form p))
finish-waits edit_form removal p q e h = rw e (omega arith)

pub respond-Balanced :
    (f : Form) (c : Call) (reply : Reply) (p : Page)
    → After (Balanced f) (of_form f) p (of_form f c) (respond c reply p)
unfolding respond
respond-Balanced invite_form inviting (done (answered _)) p = λ h. omega arith
respond-Balanced edit_form inviting (done (answered _)) p = λ h. omega arith
respond-Balanced invite_form inviting (done (failed _)) p =
    λ h. omega (arith, h, bit_le (waits invite_form p))
respond-Balanced edit_form inviting (done (failed _)) p = λ h. omega arith
respond-Balanced f inviting (lists a) p = tt
respond-Balanced f inviting (lists_devices d) p = tt
respond-Balanced invite_form saving (done (answered _)) p = λ h. omega arith
respond-Balanced edit_form saving (done (answered _)) p = λ h. omega arith
respond-Balanced invite_form saving (done (failed _)) p = λ h. omega arith
respond-Balanced edit_form saving (done (failed _)) p =
    λ h. omega (arith, h, bit_le (waits edit_form p))
respond-Balanced f saving (lists a) p = tt
respond-Balanced f saving (lists_devices d) p = tt
respond-Balanced invite_form removing (done (answered _)) p = λ h. omega arith
respond-Balanced edit_form removing (done (answered _)) p = λ h. omega arith
respond-Balanced invite_form removing (done (failed _)) p = λ h. omega arith
respond-Balanced edit_form removing (done (failed _)) p = λ h. omega arith
respond-Balanced f removing (lists a) p = tt
respond-Balanced f removing (lists_devices d) p = tt
respond-Balanced invite_form (listing r) (lists (answered (ms, ps))) p = λ h. omega arith
respond-Balanced edit_form (listing r) (lists (answered (ms, ps))) p = λ h. omega arith
respond-Balanced f (listing r) (lists (failed _)) p = finish-waits f r p p refl
respond-Balanced f (listing r) (done a) p = tt
respond-Balanced f (listing r) (lists_devices d) p = tt
respond-Balanced invite_form (listing_devices r ps) (lists_devices d) p =
    finish-waits invite_form r p _ refl
respond-Balanced edit_form (listing_devices r ps) (lists_devices d) p =
    finish-waits edit_form r p _ refl
respond-Balanced f (listing_devices r ps) (done a) p = tt
respond-Balanced f (listing_devices r ps) (lists a) p = tt
