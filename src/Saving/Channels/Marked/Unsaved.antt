-- ===== src/Saving/Channels/Marked/Unsaved.antt =====
-- When the page of web/static/js/admin.js has unsaved changes.
use server_status_rust_l.Prelude.{String, false, some, ◌≡◌}
use server_status_rust_l.Prelude.Json.{Json}
use server_status_rust_l.Notifications.{Scope, Forms, Browser}
use server_status_rust_l.Notifications.Page.{same_scope, local_snapshot, refresh_local_dirty}
use server_status_rust_l.Saving.{App, Backend, announce}
use server_status_rust_l.Saving.Channels.{
  set_page, reset_notification_override, save_channel, save_access_settings,
  save_expire_notify_settings,
}
use server_status_rust_l.Saving.Channels.Trials.{test_notification}

module _ (browser : Browser) where
  -- The page over its handlers: from one on which every form was just drawn, a change of a form with its
  -- handler's refresh of the mark, a save or a reset or a test of a channel, a message, and a save of the
  -- addresses or of the reminders, each with any back end.
  pub data Reached : App → Type 0 where
    drawn :
        (s : App)
        → ((scope : Scope)
            → (s.page.locals scope).baseline ≡ local_snapshot browser s.page.forms scope)
        → ((scope : Scope) → (s.page.locals scope).dirty ≡ false)
        → Reached s
    changed :
        (s : App) (scope : Scope) (forms : Forms)
        → ((other : Scope)
            → same_scope scope other ≡ false
            → local_snapshot browser forms other ≡ local_snapshot browser s.page.forms other)
        → Reached s
        → Reached (set_page (refresh_local_dirty browser scope (record s.page { forms = forms })) s)
    saved :
        (backend : Backend) (scope : Scope) (s : App)
        → Reached s
        → Reached (save_channel browser backend scope s).1
    was_reset :
        (backend : Backend) (scope : Scope) (key label : String) (s : App)
        → Reached s
        → Reached (reset_notification_override browser backend scope key label s).1
    tested :
        (backend : Backend) (kind : String) (scope : Scope) (payload : Json) (message : String)
        (s : App)
        → Reached s
        → Reached (test_notification browser backend kind scope payload message s)
    told :
        (scope : Scope) (message : String) (s : App)
        → Reached s
        → Reached (announce (some scope) message s)
    access_settings :
        (backend : Backend) (s : App) → Reached s → Reached (save_access_settings browser backend s)
    expire_settings :
        (backend : Backend) (s : App)
        → Reached s
        → Reached (save_expire_notify_settings browser backend s)
