-- ===== src/Tests/Sample.antt =====
-- A page of forms for the tests, with a Telegram channel whose token the back end has.
use server_status_rust_l.Prelude.Json.{null}
use server_status_rust_l.Prelude.{true, false, none, some, [], ◌∷◌}
use server_status_rust_l.Secrets.{SecretInput}
use server_status_rust_l.Notifications.{Forms, Browser}
use server_status_rust_l.Notifications.Page.{Page, unset}

abbrev pub empty_secret : SecretInput
empty_secret = record {
  value = "";
  placeholder = "";
  configured = false;
  original_configured = false;
  masked = false;
  clear = false;
  button_is_active = false;
  button_disabled = true;
}

abbrev pub typed_secret : SecretInput
typed_secret = record empty_secret { value = "secret" }

abbrev pub forms : Forms
forms = record {
  tg = record {
    enabled = true;
    token = typed_secret;
    chat = empty_secret;
    title = "t";
    expire = "";
    health = "h";
  };
  bark = record {
    enabled = true;
    server = " https://b ";
    key = record empty_secret { clear = true };
    title = "";
    group = "g";
    expire = "";
    health = "";
  };
  wechat = record {
    enabled = false;
    corp_id = "c";
    corp_secret = typed_secret;
    agent_id = "";
    title = "";
    online = "";
    offline = "";
    expire = "";
    health = "";
  };
  email = record {
    enabled = false;
    server = "smtp";
    username = "u";
    password = empty_secret;
    to = "a@b";
    subject = "";
    title = "";
    online = "";
    offline = "";
    expire = "";
    health = "";
  };
  webhook = record {
    enabled = true;
    source = "";
    receivers =
        record {
          id = "w1";
          enabled = true;
          name = " hook ";
          url = typed_secret;
          username = "";
          password = empty_secret;
          timeout = "60";
          body = "{}";
          headers = [];
        }
        ∷ record {
          id = "w2";
          enabled = false;
          name = "";
          url = empty_secret;
          username = "";
          password = empty_secret;
          timeout = "61";
          body = "";
          headers = [];
        }
        ∷ [];
  };
  log = record { enabled = false; template = "x" };
  access = record { access_base_url = "https://a/"; agent_base_url = "" };
  expire = record { enabled = true; days = "7, 1,7"; interval = "" };
}

abbrev pub page : Page
page = record {
  forms = forms;
  locals = λ scope. record { baseline = unset; dirty = false; message = ""; save_disabled = true };
}

abbrev pub browser : Browser
browser = record {
  stable_id = λ n. "webhook-0";
  other_value = λ text. none;
  stable_number = λ text. null;
  interval_is_valid = λ text. true;
  path_parts = λ text. some [];
  confirms = true;
}
