-- ===== src/Expiry/Element.antt =====
-- The document nodes that web/static/js/expiry.js builds: a `div` with classes, a title, a text of
-- its own and `span`s in it. Two nodes have the same `outerHTML` if all of these agree.
use server_status_rust_l.Prelude.{
  String, Bool, true, false, ◌&&◌, List, [], ◌∷◌, ◌==◌, eq_iff, ◌≡◌, refl, arith, eq_refl,
}

pub record Span : Type 0 where
  pub class_name : String
  pub text_content : String

pub record Element : Type 0 where
  pub class_name : String
  pub title : String
  pub text_content : String
  pub spans : List Span

abbrev pub span : String → String → Span
span class_name text_content = record { class_name = class_name; text_content = text_content }

same_spans : List Span → List Span → Bool
same_spans [] [] = true
same_spans (s ∷ ss) (t ∷ ts) =
    s.class_name == t.class_name && s.text_content == t.text_content && same_spans ss ts
same_spans _ _ = false

unfoldable pub same_html : Element → Element → Bool
unfolding same_spans
same_html a b =
    a.class_name == b.class_name
    && a.title == b.title
    && a.text_content == b.text_content
    && same_spans a.spans b.spans

same_spans_sound : (ss ts : List Span) → same_spans ss ts ≡ true → ss ≡ ts
unfolding same_spans
same_spans_sound [] [] h = refl
same_spans_sound (s ∷ ss) (t ∷ ts) h = ground (
  arith,
  eq_iff s.class_name t.class_name,
  eq_iff s.text_content t.text_content,
  same_spans_sound ss ts,
)
same_spans_sound [] (t ∷ ts) h = absurd (cc)
same_spans_sound (s ∷ ss) [] h = absurd (cc)

same_spans_refl : (ss : List Span) → same_spans ss ss ≡ true
unfolding same_spans
same_spans_refl [] = refl
same_spans_refl (s ∷ ss) =
    ground (arith, eq_refl s.class_name, eq_refl s.text_content, same_spans_refl ss)

pub same_html_sound : (a b : Element) → same_html a b ≡ true → a ≡ b
unfolding same_html
same_html_sound a b h = ground (
  arith,
  eq_iff a.class_name b.class_name,
  eq_iff a.title b.title,
  eq_iff a.text_content b.text_content,
  same_spans_sound a.spans b.spans,
)

pub same_html_refl : (a : Element) → same_html a a ≡ true
unfolding same_html
same_html_refl a =
    ground (
      arith,
      eq_refl a.class_name,
      eq_refl a.title,
      eq_refl a.text_content,
      same_spans_refl a.spans,
    )
