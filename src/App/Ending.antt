-- ===== src/App/Ending.antt =====
-- The end of a session, and what is left of the dashboard.
use ops_sys.Base.{false, ◌≡◌, refl, sym, ap, ◌∙◌, Option, none, List, [], ◌∷◌, ◌++◌, get_or}
use ops_sys.Base.Text.{Text, is_blank}
use ops_sys.Auth.{User}
use ops_sys.Auth.Session
use ops_sys.Auth.Session.{logs_out, token_expires, renewal_fails, current, current_user}
use ops_sys.Shell.{Route}
use ops_sys.App.{inside, Event, session, response, signs_out, run, opened_at}
use ops_sys.App.Safety.{IsQuiet, run-signed_out}
use ops_sys.App.Owner.{told, told_all, token_of, run-IsSession}

-- The events that end a session: an answer 401, the button `Sign out`, `logout`, and a token that
-- expires or cannot be renewed while no silent sign-in works.
pub data IsEnd : Event → Type 0 where
  unauthorized : IsEnd (response 401)
  left : IsEnd signs_out
  logged_out : IsEnd (session logs_out)
  expired : IsEnd (session (token_expires false))
  not_renewed : IsEnd (session (renewal_fails false))

current_user-append :
    (u : Option User) (es ds : List Session.Event)
    → current_user u (es ++ ds) ≡ current_user (current_user u es) ds
current_user-append u [] ds = refl
current_user-append u (e ∷ es) ds = current_user-append (current u e) es ds

told_all-append :
    (u : Option User) (es ds : List Event)
    → current_user u (told_all (es ++ ds))
      ≡ current_user (current_user u (told_all es)) (told_all ds)
told_all-append u [] ds = refl
told_all-append u (e ∷ es) ds =
    current_user-append u (told e) (told_all (es ++ ds))
    ∙ told_all-append (current_user u (told e)) es ds
    ∙ ap (λ v. current_user v (told_all ds)) (sym (current_user-append u (told e) (told_all es)))

nobody_left : (u : Option User) {e : Event} → IsEnd e → current_user u (told e) ≡ none
nobody_left u unauthorized = refl
nobody_left u left = refl
nobody_left u logged_out = refl
nobody_left u expired = refl
nobody_left u not_renewed = refl

nobody_now :
    (es ds : List Event) {e : Event}
    → IsEnd e
    → current_user none (told_all ds) ≡ none
    → current_user none (told_all (es ++ e ∷ ds)) ≡ none
nobody_now es ds {e} end nobody =
    let u : Option User = current_user none (told_all es) in
    told_all-append none es (e ∷ ds)
    ∙ current_user-append u (told e) (told_all ds)
    ∙ ap (λ v. current_user v (told_all ds)) (nobody_left u end)
    ∙ nobody

-- Whatever came before the event that ends a session, and whatever comes after it as long as it leaves
-- nobody signed in: the user is taken away from the pages below the guard, nobody listens to the
-- connection, no vehicle is subscribed, no socket is alive, no timer of the manager and no animation
-- frame of the page is pending, and the status is `disconnected`. Nothing is said of the data of the
-- two stores, nor of an animation frame that the store of the telemetry asked for.
pub run-IsEnd :
    (gateway_url : Text) (r : Route) (es ds : List Event) {e : Event}
    → IsEnd e
    → current_user none (told_all ds) ≡ none
    → let a = run (opened_at gateway_url r) (es ++ e ∷ ds) in
      (inside a.view ≡ false) × (a.watch.world.listeners ≡ []) × IsQuiet a
run-IsEnd gateway_url r es ds {e} end nobody = run-signed_out gateway_url r (es ++ e ∷ ds) (
    ap (λ o. is_blank (get_or [] o))
      ((run-IsSession gateway_url r (es ++ e ∷ ds)).of_token
        ∙ ap token_of (nobody_now es ds end nobody)))
