-- ===== src/Settings/Ensure.antt =====
-- What `ensureSettings` of web/static/js/admin.js makes of any settings.
use server_status_rust_l.Prelude.{◌≡◌, refl}
use server_status_rust_l.Settings.{Settings, ensured}

-- Completing settings a second time changes nothing.
ensured_twice : (settings : Settings) → ensured (ensured settings) ≡ ensured settings
unfolding ensured
ensured_twice settings = refl
