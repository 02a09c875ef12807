-- ===== src/Session/Entry.antt =====
-- What a login of web/static/js/admin.js comes to.
use server_status_rust_l.Prelude.{
  String, Bool, true, false, ◌&&◌, ◌≡◌, ◌⊎◌, inl, inr, refl, sym, ap, ◌∙◌, subst, List,
}
use server_status_rust_l.Settings.{Settings, hydrate_settings}
use server_status_rust_l.Servers.{Stat}
use server_status_rust_l.Notifications.{Browser}
use server_status_rust_l.Notifications.Page.{
  has_unsaved_changes, reset_local_baseline, set_local_dirty, set_local,
}
use server_status_rust_l.Saving.{
  App, Backend, Config, Reply, body, refused, rejected, Result, ok, err, Failure, Exec, login,
  dashboard, modify, continue, ◌>>=◌, ◌>>◌, read_json, clear_session, mark_pristine, set_settings,
}
use server_status_rust_l.Saving.Channels.{render_notification, set_config, set_page}
use server_status_rust_l.Session.{
  render_settings, render_notifications, render_all, read_dashboard, set_dashboard, load_dashboard,
  enter_dashboard, signed_in, entered, login_handler,
}

abbrev pub is_body : {A : Type 0} → Reply A → Bool
is_body (body a) = true
is_body _ = false

-- A request that is answered leaves the state; another gives a failure.
abbrev IsReplied : {A : Type 0} → Reply A → App → Type 0
IsReplied {A = A} reply s =
    ((is_body reply ≡ true) × (a : A) × (reply ≡ body a) × (read_json reply s ≡ (ok a, s)))
    ⊎ ((is_body reply ≡ false) × (e : Failure) × (t : App) × (read_json reply s ≡ (err e, t)))

read_json-IsReplied : {A : Type 0} (reply : Reply A) (s : App) → IsReplied reply s
unfolding read_json
read_json-IsReplied (body a) s = inl (refl, a, refl, refl)
read_json-IsReplied (refused status error status_text) s = inr (refl, _, _, refl)
read_json-IsReplied (rejected message) s = inr (refl, _, _, refl)

-- The replies to all requests of a login.
abbrev pub is_answered : Backend → Reply String → Bool
is_answered backend authorize =
    is_body authorize
    && is_body backend.get_config
    && is_body backend.get_stats
    && is_body backend.get_settings

ok_bind :
    {A B : Type 0} (m : Exec A) (f : A → Exec B) (s t : App) (a : A)
    → m s ≡ (ok a, t)
    → (m >>= f) s ≡ f a t
ok_bind {A = A} m f s t a h = ap (λ (r : Result A × App). continue r.0 f r.1) h

err_bind :
    {A B : Type 0} (m : Exec A) (f : A → Exec B) (s t : App) (e : Failure)
    → m s ≡ (err e, t)
    → (m >>= f) s ≡ (err e, t)
err_bind {A = A} m f s t e h = ap (λ (r : Result A × App). continue r.0 f r.1) h

module _ (browser : Browser) (backend : Backend) where
  -- The page of a console that has just been entered.
  abbrev pub IsEntered : Reply String → App → Type 0
  IsEntered authorize s' =
      (s'.view ≡ dashboard)
      × (authorize ≡ body s'.token)
      × ((settings : Settings) × (backend.get_settings ≡ body settings)
          × (s'.state ≡ hydrate_settings settings))
      × (backend.get_stats ≡ body s'.stats)
      × (has_unsaved_changes s'.dirty s'.page ≡ false)

  abbrev is_loaded : Bool
  is_loaded =
      is_body backend.get_config && is_body backend.get_stats && is_body backend.get_settings

  read_dashboard_lem :
      (s : App)
      → ((is_loaded ≡ true)
          × (config : Config) × (stats : List Stat) × (settings : Settings) × (backend.get_stats
              ≡ body stats)
          × (backend.get_settings ≡ body settings)
          × (read_dashboard backend s ≡ (ok (config, stats, settings), s)))
        ⊎ ((is_loaded ≡ false)
            × (e : Failure) × (t : App) × (read_dashboard backend s ≡ (err e, t)))
  unfolding read_dashboard
  read_dashboard_lem s = elim (read_json-IsReplied backend.get_config s) [
    | inr (c, e, t, r) ↦ inr (
      rw c refl,
      e,
      (read_json backend.get_settings (read_json backend.get_stats t).1).1,
      simp r refl,
    )
    | inl (c, config, _, r) ↦ elim (read_json-IsReplied backend.get_stats s) [
      | inr (b, e, t, q) ↦
          inr (rw (c, b) refl, e, (read_json backend.get_settings t).1, simp (r, q) refl)
      | inl (b, stats, is_stats, q) ↦ elim (read_json-IsReplied backend.get_settings s) [
        | inr (a, e, t, p) ↦ inr (rw (c, b, a) refl, e, t, simp (r, q, p) refl)
        | inl (a, settings, is_settings, p) ↦
            inl (
              rw (c, b, a) refl,
              config,
              stats,
              settings,
              is_stats,
              is_settings,
              simp (r, q, p) refl,
            )
      ]
    ]
  ]

  -- The page after the first load.
  abbrev loaded : Config → List Stat → Settings → App → App
  loaded config stats settings s =
      mark_pristine "" (render_all browser (set_dashboard config stats settings s))

  loaded_lem :
      (config : Config) (stats : List Stat) (settings : Settings) (s : App)
      → let s' = loaded config stats settings s in
        (s'.token ≡ s.token)
        × (s'.state ≡ hydrate_settings settings)
        × (s'.stats ≡ stats)
        × (has_unsaved_changes s'.dirty s'.page ≡ false)
  unfolding render_all render_settings render_notifications render_notification set_dashboard
      set_config set_settings mark_pristine set_page reset_local_baseline set_local_dirty set_local
      has_unsaved_changes
  loaded_lem config stats settings s = (refl, refl, refl, refl)

  -- The state in which the requests of the first load are sent.
  abbrev entering : String → App → App
  entering token s = record s { token = token; login_message = "正在加载配置..." }

  -- What follows the requests of the first load.
  after_read : Result (Config × List Stat × Settings) × App → App
  unfolding entered
  after_read r =
      let first =
        continue r.0
          (λ ((config, stats, settings) : Config × List Stat × Settings).
            modify (set_dashboard config stats settings)
            >> modify (render_all browser)
            >> modify (mark_pristine ""))
          r.1 in
      entered browser (
        continue first.0 (λ _. modify (λ s. record s { login_message = ""; view = dashboard }))
          first.1)

  entered_ok :
      (token : String) (s : App) (config : Config) (stats : List Stat) (settings : Settings)
      → read_dashboard backend (entering token s) ≡ (ok (config, stats, settings), entering token s)
      → login_handler browser backend (body token) s
        ≡ record (loaded config stats settings (entering token s)) {
          login_message = "";
          view = dashboard;
        }
  unfolding login_handler signed_in enter_dashboard load_dashboard entered read_json after_read
  entered_ok token s config stats settings h = ap after_read h

  entered_err :
      (token : String) (s t : App) (e : Failure)
      → read_dashboard backend (entering token s) ≡ (err e, t)
      → let s' = login_handler browser backend (body token) s in (s'.view ≡ login) × (s'.token ≡ "")
  unfolding login_handler signed_in enter_dashboard load_dashboard entered read_json clear_session
  entered_err token s t e h = rw h (refl, refl)

  refused_login :
      (authorize : Reply String) (s : App)
      → is_body authorize ≡ false
      → let s' = login_handler browser backend authorize s in (s'.view ≡ login) × (s'.token ≡ "")
  unfolding login_handler signed_in entered read_json clear_session
  refused_login (body token) s h = absurd (cc h)
  refused_login (refused status error status_text) s h = (refl, refl)
  refused_login (rejected message) s h = (refl, refl)

  -- A login shows the console exactly if the login and the three requests of the first load are all
  -- answered; then the session is that of the reply, the state is what the back end has, and nothing is
  -- unsaved. Otherwise there is no session, and the login page is shown.
  pub login_handler_lem :
      (authorize : Reply String) (s : App)
      → let s' = login_handler browser backend authorize s in
        ((is_answered backend authorize ≡ true) × IsEntered authorize s')
        ⊎ ((is_answered backend authorize ≡ false) × (s'.view ≡ login) × (s'.token ≡ ""))
  login_handler_lem (refused status error status_text) s =
      let (view, token) = refused_login (refused status error status_text) s refl in
      inr (refl, view, token)
  login_handler_lem (rejected message) s =
      let (view, token) = refused_login (rejected message) s refl in inr (refl, view, token)
  login_handler_lem (body token) s = elim (read_dashboard_lem (entering token s)) [
    | inr (a, e, t, r) ↦ let (view, no_token) = entered_err token s t e r in inr (a, view, no_token)
    | inl (a, config, stats, settings, is_stats, is_settings, r) ↦
        let (same, state, shown, none_unsaved) =
          loaded_lem config stats settings (entering token s) in
        inl (
          a,
          subst (IsEntered (body token)) (sym (entered_ok token s config stats settings r)) (
            refl,
            ap body (sym same),
            (settings, is_settings, state),
            is_stats ∙ ap body (sym shown),
            none_unsaved,
          ),
        )
  ]
