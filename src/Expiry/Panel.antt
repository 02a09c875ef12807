-- ===== src/Expiry/Panel.antt =====
-- web/static/js/expiry.js: the chips and the panel. `localeCompare` and the date format of
-- `toLocaleString` are the browser's, parameters.
pub mod Attention
pub mod Buckets
use server_status_rust_l.Prelude.{
  String, ℕ, ◌*◌, ◌<◌, Bool, true, false, not, ◌&&◌, ◌||◌, Option, none, some, List, [], ◌∷◌, ◌++◌,
  map, ◌==◌, is_empty, truthy, concat, join, to_string, if◌then◌else◌, filter, find, take, length,
  ◌or_text◌, eqb, ltb,
}
use server_status_rust_l.Prelude.Int.{ℤ, pos, leb_ℤ, ltb_ℤ}
use server_status_rust_l.Prelude.Sort.{sort_by}
use server_status_rust_l.Expiry.{
  Expire, Server, attention_days, has_expiry, is_permanent, display_name, status_class,
  auto_renewal_healthy, treat_as_missing, needs_attention,
}
use server_status_rust_l.Expiry.Element.{Element, span}
use server_status_rust_l.Expiry.Texts.{expiry_date_text, days_text, renewal_text, money_text}
use server_status_rust_l.Expiry.Risk.{due_le, risk_le}

pub record Metric : Type 0 where
  pub class_name : String
  pub value : String
  pub label : String

pub metric : String → String → String → Metric
metric label value tone = record {
  class_name = concat (
      "ssr-expiry-metric "
      ∷ (if truthy tone then concat ("ssr-expiry-metric-" ∷ tone ∷ []) else "")
      ∷ []);
  value = value;
  label = label;
}

unfoldable pub make_missing_chip : Server → Element
make_missing_chip server = record {
  class_name = "ssr-expiry-chip ssr-expiry-missing";
  title = concat (display_name server ∷ ": 未配置 VPS 到期时间" ∷ []);
  text_content = "";
  spans =
      span "ssr-expiry-name" (display_name server)
      ∷ span "ssr-expiry-date" "未配置到期时间"
      ∷ span "ssr-expiry-label" "建议补充"
      ∷ [];
}

-- The chip of a server that has a due date.
expire_chip : Server → Bool → Expire → Element
expire_chip server compact expire = record {
  class_name = concat ("ssr-expiry-chip " ∷ status_class expire.status ∷ []);
  title = join " | " (
      filter truthy (
        display_name server
        ∷ expiry_date_text (some expire)
        ∷ expire.label
        ∷ renewal_text (some expire)
        ∷ []));
  text_content = "";
  spans =
      (span "ssr-expiry-name" (display_name server)
        ∷ span "ssr-expiry-date" (expiry_date_text (some expire))
        ∷ span "ssr-expiry-label" (if is_permanent expire then "长期有效" else days_text (some expire))
        ∷ [])
      ++ ((if truthy (renewal_text (some expire)) && not compact
            then span "ssr-expiry-renewal" (renewal_text (some expire)) ∷ []
            else [])
          ++ (if truthy (money_text expire) && not compact
              then span "ssr-expiry-billing" (money_text expire) ∷ []
              else []));
}

unfoldable pub make_chip : Server → Bool → Element
unfolding expire_chip make_missing_chip
make_chip server compact =
    if treat_as_missing server then make_missing_chip server else elim server.expire [
      | none ↦ make_missing_chip server
      | some expire ↦ expire_chip server compact expire
    ]

-- A test on the due date of a server, false where there is none.
abbrev pub on_expire : (Expire → Bool) → Server → Bool
on_expire test server = elim server.expire [ none ↦ false | some expire ↦ test expire ]

unfoldable pub is_warning : Expire → Bool
is_warning expire =
    not (auto_renewal_healthy expire)
    && leb_ℤ (pos 0) expire.days_left
    && leb_ℤ expire.days_left (pos 7)

unfoldable pub is_soon : Expire → Bool
is_soon expire =
    not (auto_renewal_healthy expire)
    && ltb_ℤ (pos 7) expire.days_left
    && leb_ℤ expire.days_left attention_days

pub record Panel : Type 0 where
  pub title : String
  pub subtitle : String
  pub metrics : List Metric
  pub list : List Element

-- A node of the list with a text and nothing else.
quiet : String → String → Element
quiet class_name text_content = record {
  class_name = class_name;
  title = "";
  text_content = text_content;
  spans = [];
}

-- A count, with the tone that it has unless it is zero.
counted : String → ℕ → String → Metric
unfolding metric
counted label n tone = metric label (to_string n) (if eqb n 0 then "neutral" else tone)

pub render_error_panel : Bool → String → Option Panel
unfolding metric quiet
render_error_panel false message = none
render_error_panel true message = some record {
  title = "状态加载失败";
  subtitle = message or_text "无法读取 /json/stats.json";
  metrics = metric "状态" "异常" "danger" ∷ [];
  list =
      quiet "ssr-expiry-quiet ssr-empty-state ssr-expiry-error"
        "请检查服务端是否运行正常，或确认反向代理已放行 /json/stats.json。"
      ∷ [];
}

attention_list : List Server → List Element
unfolding quiet
attention_list [] = quiet "ssr-expiry-quiet" "暂无到期风险" ∷ []
attention_list (server ∷ servers) = map (λ s. make_chip s false) (server ∷ servers)

pub render_empty_panel : (ℕ → String) → ℕ → Panel
unfolding metric quiet
render_empty_panel to_locale_string updated = record {
  title = "暂无服务器上报";
  subtitle =
      if eqb updated 0
      then "Agent 接入后会自动显示节点状态"
      else concat ("最后检查: " ∷ to_locale_string (updated * 1000) ∷ []);
  metrics = metric "节点" "0" "neutral" ∷ metric "在线" "0" "neutral" ∷ [];
  list = quiet "ssr-expiry-quiet ssr-empty-state" "后端服务正常，正在等待 Agent 上报。" ∷ [];
}

unfoldable pub missing_servers : List Server → List Server
missing_servers servers = filter treat_as_missing servers

module _ (locale_compare : String → String → ℤ) where
  unfoldable pub configured_servers : List Server → List Server
  configured_servers servers =
      sort_by (due_le locale_compare)
        (filter (λ server. has_expiry server && not (treat_as_missing server)) servers)

  unfoldable pub due_servers : List Server → List Server
  due_servers servers =
      filter (on_expire (λ expire. not (is_permanent expire))) (configured_servers servers)

  unfoldable pub permanent_servers : List Server → List Server
  permanent_servers servers = filter (on_expire is_permanent) (configured_servers servers)

  unfoldable pub expired_servers : List Server → List Server
  expired_servers servers =
      filter (on_expire (λ expire. expire.status == "expired")) (configured_servers servers)

  unfoldable pub warning_servers : List Server → List Server
  warning_servers servers = filter (on_expire is_warning) (due_servers servers)

  unfoldable pub soon_servers : List Server → List Server
  soon_servers servers = filter (on_expire is_soon) (due_servers servers)

  unfoldable pub auto_servers : List Server → List Server
  auto_servers servers =
      filter (on_expire (λ expire. expire.auto_renewal)) (configured_servers servers)

  unfoldable pub attention_servers : List Server → List Server
  attention_servers servers =
      take 8 (sort_by (risk_le locale_compare) (filter needs_attention servers))

  unfoldable pub next_server : List Server → Option Server
  next_server servers =
      find (on_expire (λ expire. leb_ℤ (pos 0) expire.days_left)) (due_servers servers)

  panel_subtitle : List Server → String
  panel_subtitle servers = elim (next_server servers) [
    | some next ↦ concat (
        "下一台: "
        ∷ display_name next
        ∷ " "
        ∷ expiry_date_text next.expire
        ∷ " ("
        ∷ days_text next.expire
        ∷ ")"
        ∷ [])
    | none ↦
        if ltb 0 (length (permanent_servers servers)) && eqb (length (missing_servers servers)) 0
        then "所有已配置节点均为永久"
        else "暂无有效到期日"
  ]

  full_panel : List Server → Panel
  unfolding panel_subtitle attention_list counted
  full_panel servers = record {
    title = "VPS 到期";
    subtitle = panel_subtitle servers;
    metrics =
        metric "已配置"
          (concat (
            to_string (length (configured_servers servers))
            ∷ "/"
            ∷ to_string (length servers)
            ∷ []))
          "neutral"
        ∷ counted "未配置" (length (missing_servers servers)) "missing"
        ∷ counted "已过期" (length (expired_servers servers)) "danger"
        ∷ counted "7 天风险" (length (warning_servers servers)) "warning"
        ∷ counted "30 天风险" (length (soon_servers servers)) "soon"
        ∷ counted "自动" (length (auto_servers servers)) "auto"
        ∷ [];
    list = attention_list (attention_servers servers);
  }

  -- `none` where the page has neither the panel nor a body to put it in.
  unfoldable pub render_panel : (ℕ → String) → Bool → List Server → ℕ → Option Panel
  unfolding full_panel render_empty_panel
  render_panel to_locale_string false servers updated = none
  render_panel to_locale_string true [] updated = some (render_empty_panel to_locale_string updated)
  render_panel to_locale_string true (server ∷ servers) updated =
      some (full_panel (server ∷ servers))
