-- ===== src/Template/Render/Flat.antt =====
-- A template without sections: its markup is its own, and a raw layout shows its content as it is.
use camelmailer.Base.{
  ◌+◌, ◌≤◌, ◌≡◌, refl, sym, ◌∙◌, ap, true, false, not, Option, none, some, List, [], ◌∷◌, ◌++◌,
  filter, append_assoc, append-nil, arith, ltb, if_both, all,
}
use camelmailer.Text.{Text, codes, byte_len, text_eq, split_where}
use camelmailer.Text.Laws.{text_eq_refl}
use camelmailer.Template.{
  Result, ok, err, ◌>>=◌, OnOk, OnOk->>=, text, var, section, Nodes, nil, cons, push_node, Value,
  object, string, Fields, no_fields, field, get_field, insert_field,
}
use camelmailer.Template.Parse.{parse, parse_loop, after_open, split_text, push_text, push, finish}
use camelmailer.Template.Render.{
  max_output, scalar, html_escape, lookup, push_capped, render_var, render_node, render_nodes,
  render, render_in_layout, model_fields,
}
use camelmailer.Template.Render.Laws.{is_inert, html_escape-inert}

-- The characters of markup of a text, in order.
abbrev pub marks : Text → Text
marks = filter (λ c. not (is_inert c))

marks-append : (s t : Text) → marks (s ++ t) ≡ marks s ++ marks t
marks-append [] t = refl
marks-append (c ∷ s) t = ground (arith, marks-append s t)

marks-inert : (t : Text) → all is_inert t ≡ true → marks t ≡ []
marks-inert [] h = refl
marks-inert (c ∷ t) h = ground (arith, marks-inert t)

-- Texts and escaped variables only.
abbrev pub IsFlat : Nodes → Type 0
IsFlat nil = Unit
IsFlat (cons (text t) ns) = IsFlat ns
IsFlat (cons (var path escaped) ns) = (escaped ≡ true) × IsFlat ns
IsFlat (cons (section path inverted children) ns) = ⊥

abbrev pub text_of : Nodes → Text
text_of nil = []
text_of (cons (text t) ns) = t ++ text_of ns
text_of (cons (var path escaped) ns) = text_of ns
text_of (cons (section path inverted children) ns) = text_of ns

push_capped-marks : (out t : Text) → OnOk (λ o. marks o ≡ marks out ++ marks t) (push_capped out t)
unfolding push_capped
push_capped-marks out t =
    if_both (OnOk (λ (o : Text). marks o ≡ marks out ++ marks t))
      (ltb max_output (byte_len out + byte_len t)) (λ _. tt) (λ _. marks-append out t)

render_var-marks :
    (o : Option Value) (out : Text) → OnOk (λ t. marks t ≡ marks out) (render_var true o out)
unfolding render_var
render_var-marks none out = refl
render_var-marks (some v) out =
    escaped (push_capped out (html_escape (scalar v)))
      (push_capped-marks out (html_escape (scalar v)))
  where
    escaped :
        (r : Result Text)
        → OnOk (λ o. marks o ≡ marks out ++ marks (html_escape (scalar v))) r
        → OnOk (λ o. marks o ≡ marks out) r
    escaped (err e) h = tt
    escaped (ok o) h =
        h
        ∙ (ap (λ (t : Text). marks out ++ t)
              (marks-inert (html_escape (scalar v)) (html_escape-inert (scalar v)))
            ∙ append-nil (marks out))

-- The markup of the output of texts and escaped variables is that of the texts, in order, whatever
-- the model says.
pub render_nodes-marks :
    (ns : Nodes) (stack : List Value) (out : Text)
    → IsFlat ns
    → OnOk (λ o. marks o ≡ marks out ++ marks (text_of ns)) (render_nodes ns stack out)
unfolding render_nodes render_node
render_nodes-marks nil stack out f = sym (append-nil (marks out))
render_nodes-marks (cons (text t) ns) stack out f =
    OnOk->>= (λ (o : Text). marks o ≡ marks out ++ marks t)
      (λ (o : Text). marks o ≡ marks out ++ marks (t ++ text_of ns)) (push_capped out t)
      (λ o. render_nodes ns stack o) (push_capped-marks out t)
      (λ o h. joined o h (render_nodes ns stack o) (render_nodes-marks ns stack o f))
  where
    joined :
        (o : Text)
        → marks o ≡ marks out ++ marks t
        → (r : Result Text) → OnOk (λ x. marks x ≡ marks o ++ marks (text_of ns)) r
        → OnOk (λ x. marks x ≡ marks out ++ marks (t ++ text_of ns)) r
    joined o h (err e) k = tt
    joined o h (ok x) k = rw (marks-append t (text_of ns)) (
        k
        ∙ (ap (λ (m : Text). m ++ marks (text_of ns)) h
            ∙ append_assoc (marks out) (marks t) (marks (text_of ns))))
render_nodes-marks (cons (var path escaped) ns) stack out f =
    OnOk->>= (λ (o : Text). marks o ≡ marks out)
      (λ (o : Text). marks o ≡ marks out ++ marks (text_of ns))
      (render_var escaped (lookup stack path) out) (λ o. render_nodes ns stack o)
      (rw f.0 (render_var-marks (lookup stack path) out))
      (λ o h. rw (← h) (render_nodes-marks ns stack o f.1))
render_nodes-marks (cons (section path inverted children) ns) stack out f = absurd f

get_field-insert_field :
    (key : Text) (v : Value) (fs : Fields) → get_field key (insert_field key v fs) ≡ some v
unfolding get_field insert_field
get_field-insert_field key v no_fields = ground (arith, text_eq_refl key)
get_field-insert_field key v (field k w fs) =
    ground (arith, text_eq_refl k, get_field-insert_field key v fs)

abbrev raw_layout : Text
unfolding codes
raw_layout = codes "{{{ content }}}"

parse-raw_layout : parse raw_layout ≡ some (ok (cons (var (codes "content") false) nil))
unfolding parse parse_loop after_open split_text push_text push push_node finish codes
    camelmailer.Text.trim_end camelmailer.Text.trim_end_where camelmailer.Text.trim_start
    camelmailer.Text.is_whitespace
parse-raw_layout = refl

lookup-content :
    (fs : Fields) → lookup (object fs ∷ []) (codes "content") ≡ get_field (codes "content") fs
unfolding lookup codes text_eq split_where
lookup-content fs = ground arith

render-raw_layout :
    (fs : Fields) (content : Text)
    → get_field (codes "content") fs ≡ some (string content)
    → byte_len content ≤ max_output
    → render raw_layout (object fs) ≡ some (ok content)
unfolding render
render-raw_layout fs content g h =
    rw (parse-raw_layout)
      (ap some (rendered (lookup (object fs ∷ []) (codes "content")) (lookup-content fs ∙ g)))
  where
    rendered :
        (o : Option Value)
        → o ≡ some (string content)
        → (render_var false o [] >>= λ out. ok out) ≡ ok content
    rendered o e = rw e (unfold render_var push_capped scalar byte_len in ground arith)

-- A layout that is only its raw content, at most 512 KiB of it, gives that content back, whatever the
-- model: also where the model has a `content` of its own.
pub render_in_layout-raw :
    (model : Value) (content : Text)
    → byte_len content ≤ max_output
    → render_in_layout (codes "{{{ content }}}") model content ≡ some (ok content)
unfolding render_in_layout
render_in_layout-raw model content h =
    render-raw_layout (insert_field (codes "content") (string content) (model_fields model)) content
      (get_field-insert_field (codes "content") (string content) (model_fields model)) h
