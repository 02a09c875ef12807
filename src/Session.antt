-- ===== src/Session.antt =====
-- web/static/js/admin.js: the session of the console: the login, the first load, the save of all changes,
-- the servers marked as deleted, and the logout. The tables are drawn from the state and are not part
-- of it, and the fields of the account form are in Account.
pub mod Entry
use server_status_rust_l.Prelude.{
  String, ℕ, zero, suc, Bool, true, false, not, ◌&&◌, ◌||◌, Option, none, some, List, [], ◌∷◌, map,
  filter, join, to_string, ◌or_text◌, ◌or_else◌, ◌==◌, includes, is_empty, truthy, concat,
  if◌then◌else◌,
}
use server_status_rust_l.Prelude.Dict.{Dict, lookup, delete}
use server_status_rust_l.Prelude.Json.{Json, num, str, arr, nat, other}
use server_status_rust_l.Prelude.Sort.{sort_by}
use server_status_rust_l.Settings.{Settings, SettingsState, hydrate_settings}
use server_status_rust_l.Servers.{Stat, Console}
use server_status_rust_l.Notifications.{
  Scope, tg, bark, wechat, email, webhook, log, access, expire, Browser, AccessForm, ExpireForm,
  Forms, object, is_set, flag, words, elements,
}
use server_status_rust_l.Notifications.Page.{Page, reset_local_baseline, has_unsaved_changes}
use server_status_rust_l.Saving.{
  App, Config, Backend, Reply, Result, ok, err, Failure, Exec, View, login, dashboard, loading,
  ◌>>=◌, ◌>>◌, pure, modify, continue, read_json, clear_session, mark_pristine, set_settings,
  announce, expire_session, all, refresh_stats_for_render, payload_from_state, post_settings,
  save_settings_payload, table_options,
}
use server_status_rust_l.Saving.Channels.{render_notification, read_both, set_config, set_page}

abbrev number_text : Json → String
number_text (num (nat n)) = to_string n
number_text (num (other t)) = t
number_text (str t) = t
number_text _ = ""

-- `days || [30, 14, 7, 3, 1, 0]`, joined; an empty list of days stays one.
abbrev days_text : Option Json → List Json → String
days_text (some (arr _)) days = join "," (map number_text days)
days_text _ days = "30,14,7,3,1,0"

-- `interval || 86400`
abbrev interval_text : Option Json → String
interval_text none = "86400"
interval_text (some value) = if is_set (some value) then number_text value else "86400"

-- `settings.expire_notify || config.expire_notify || {}`
abbrev expire_notify : App → Dict Json
expire_notify s =
    let saved = lookup "expire_notify" s.settings.fields in
    object (if is_set saved then saved else lookup "expire_notify" s.config_channels)

abbrev settings_forms : App → Forms
settings_forms s = record s.page.forms {
  access = record {
    access_base_url = words s.settings.fields "access_base_url" "";
    agent_base_url = words s.settings.fields "agent_base_url" "";
  };
  expire = record {
    enabled = flag (expire_notify s) "enabled";
    days = days_text (lookup "days" (expire_notify s)) (elements (expire_notify s) "days");
    interval = interval_text (lookup "interval" (expire_notify s));
  };
}

-- `Promise.all` of three requests; if some fail, the failure is that of the first of them.
read_dashboard : Backend → Exec (Config × List Stat × Settings)
unfolding read_json
read_dashboard backend s =
    let (config, s1) = read_json backend.get_config s in
    let (stats, s2) = read_json backend.get_stats s1 in
    let (settings, s3) = read_json backend.get_settings s2 in
    (
      elim config [
        | err e ↦ err e
        | ok c ↦ elim stats [
          | err e ↦ err e
          | ok servers ↦ elim settings [ err e ↦ err e | ok saved ↦ ok (c, servers, saved) ]
        ]
      ],
      s3,
    )

-- `state.config = config; state.stats = stats; hydrateSettings(settings)`
set_dashboard : Config → List Stat → Settings → App → App
unfolding set_config set_settings
set_dashboard config stats settings s =
    let s' = set_config config s in
    set_settings (hydrate_settings settings)
      (record s' { console = record s'.console { stats = stats } })

module _ (browser : Browser) where
  unfoldable pub render_settings : App → App
  unfolding words flag elements lookup join to_string set_page reset_local_baseline
  render_settings s =
      let page = record s.page { forms = settings_forms s } in
      set_page
        (reset_local_baseline browser expire "" (reset_local_baseline browser access "" page)) s

  unfoldable pub render_notifications : App → App
  unfolding render_notification
  render_notifications s = render_notification browser log (
      render_notification browser webhook (
        render_notification browser email (
          render_notification browser wechat
            (render_notification browser bark (render_notification browser tg s)))))

  unfoldable pub render_all : App → App
  unfolding render_settings render_notifications
  render_all s = render_settings (render_notifications s)

  unfoldable pub load_dashboard : Backend → Exec (Unit {0})
  unfolding read_dashboard set_dashboard render_all mark_pristine
  load_dashboard backend = read_dashboard backend >>= λ (config, stats, settings).
      modify (set_dashboard config stats settings) >> modify render_all >> modify (mark_pristine "")

  unfoldable pub enter_dashboard : Backend → Exec (Unit {0})
  unfolding load_dashboard
  enter_dashboard backend =
      modify (λ s. record s { login_message = "正在加载配置..." })
      >> load_dashboard backend
      >> modify (λ s. record s { login_message = ""; view = dashboard })

  -- `authorize` is the reply to the name and the password: the token.
  signed_in : Backend → Reply String → Exec (Unit {0})
  unfolding read_json enter_dashboard
  signed_in backend authorize =
      modify (λ s. record s { login_message = "登录中..." }) >> read_json authorize >>= λ token.
      modify (λ s. record s { token = token }) >> enter_dashboard backend

  entered : Result (Unit {0}) × App → App
  unfolding clear_session
  entered (ok _, s) = s
  entered (err e, s) = record (clear_session s) {
    view = login;
    login_message = e.message or_text "登录失败";
  }

  -- The handler; the field of the password is empty after it.
  unfoldable pub login_handler : Backend → Reply String → App → App
  unfolding signed_in entered
  login_handler backend authorize s = entered (signed_in backend authorize s)

  started : Result (Unit {0}) × App → App
  unfolding clear_session
  started (ok _, s) = s
  started (err e, s) = record (clear_session s) {
    view = login;
    login_message = if e.message == "Invalid token" then "登录已过期，请重新登录" else e.message;
  }

  -- The start of the page.
  unfoldable pub start : Backend → App → App
  unfolding started enter_dashboard
  start backend s =
      let entering = started (enter_dashboard backend (record s { view = loading })) in
      if truthy s.token then entering else record s { view = login }

  unfoldable pub logout : App → App
  unfolding clear_session mark_pristine has_unsaved_changes
  logout s =
      if has_unsaved_changes s.dirty s.page && not browser.confirms
      then s
      else record (mark_pristine "" (clear_session s)) { view = login; login_message = "已退出登录" }

  dashboard_saved : Backend → Result Settings × App → App
  unfolding set_settings refresh_stats_for_render render_all mark_pristine expire_session
  dashboard_saved backend (ok saved, s) =
      let shown = render_all (
        refresh_stats_for_render backend.get_stats all (set_settings (hydrate_settings saved) s)) in
      record (mark_pristine "已同步到后端" shown) { toast = "配置已保存并同步到后端" }
  dashboard_saved backend (err e, s) =
      let message = concat ("保存失败: " ∷ e.message ∷ []) in
      record (expire_session e s) { dirty = true; message = message; toast = message }

  unfoldable pub save_dashboard : Backend → App → App
  unfolding dashboard_saved payload_from_state post_settings
  save_dashboard backend s =
      let s' = record s { saving = true; message = "保存中..." } in
      let saved = dashboard_saved backend ((payload_from_state >>= post_settings backend) s') in
      if not s.dirty then record s { message = "当前没有需要保存的更改" } else record saved { saving = false }

  -- The list of `renderDeletedHosts`; `le` is the order of `localeCompare`.
  unfoldable pub deleted_host_ids : (String → String → Bool) → App → List String
  unfolding sort_by includes
  deleted_host_ids le s =
      sort_by le (
        filter (λ id. not (includes (map (λ (stat : Stat). stat.name) s.stats) id)) s.deleted_hosts)

  unfoldable pub restore_host : Backend → String → App → App
  unfolding set_settings save_settings_payload delete payload_from_state
  restore_host backend id s =
      let left = delete id s.deleted_hosts in
      let state = record s.state {
        deleted_hosts = left;
        settings = record s.settings { deleted_hosts = some left };
      } in
      (save_settings_payload backend payload_from_state (table_options "服务器已恢复并同步到后端")
        (set_settings state s)).1

  purged : String → String → Result Settings × App → App
  unfolding set_settings render_all expire_session
  purged success_message failure (ok saved, s) =
      record (render_all (set_settings (hydrate_settings saved) s)) { toast = success_message }
  purged success_message failure (err e, s) = record (expire_session e s) {
    toast = concat (failure ∷ ": " ∷ e.message ∷ []);
  }

  -- The reply is that of `DELETE /api/admin/deleted-hosts/<id>`.
  unfoldable pub purge_deleted_host : Reply Settings → String → App → App
  unfolding purged read_json
  purge_deleted_host reply id s =
      let done = purged (concat (id ∷ " 已彻底删除，后续上报会重新接入" ∷ [])) "彻底删除失败" (read_json reply s) in
      if browser.confirms then done else s

  unfoldable pub clear_deleted_hosts : Reply Settings → App → App
  unfolding purged read_json
  clear_deleted_hosts reply s =
      let done = purged "已清空已删除服务器，后续上报会重新接入" "清空失败" (read_json reply s) in
      elim s.deleted_hosts [ [] ↦ s | id ∷ ids ↦ if browser.confirms then done else s ]
