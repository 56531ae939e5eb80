-- ===== src/Template/Tests.antt =====
-- Templates on small inputs.
use camelmailer.Base.{◌≤◌, ◌≡◌, refl, true, false, some, all, is_some}
use camelmailer.Text.{Text, codes, byte_len}
use camelmailer.Template.{
  mismatched_close, Result, ok, err, OnOk, Node, text, var, section, Nodes, nil, cons, Value,
  string, array, object, no_items, item, no_fields, field,
}
use camelmailer.Template.Parse.{parse}
use camelmailer.Template.Parse.Laws.{parse_total}
use camelmailer.Template.Parse.Depth.{depth, depth-parse}
use camelmailer.Template.Render.{render}
use camelmailer.Template.Render.Laws.{is_inert, render-IsBounded, render-inert}

abbrev list_model : Value
unfolding codes
list_model = object (
    field (codes "name") (string (codes "<b>")) (
      field (codes "rows") (array (item (string (codes "x")) (item (string (codes "&")) no_items)))
        no_fields))

abbrev list_template : Text
unfolding codes
list_template = codes "{{#rows}}{{.}}{{name}};{{/rows}}"

abbrev list_nodes : Nodes
unfolding codes
list_nodes =
    cons
      (section (codes "rows") false (
        cons (var (codes ".") true) (cons (var (codes "name") true) (cons (text (codes ";")) nil))))
      nil

abbrev list_output : Text
unfolding codes
list_output = codes "x&lt;b&gt;;&amp;&lt;b&gt;;"

list_parses : parse list_template ≡ some (ok list_nodes)
unfolding parse camelmailer.Template.Parse.parse_loop camelmailer.Text.trim_end
    camelmailer.Text.trim_end_where camelmailer.Text.trim_start camelmailer.Text.is_whitespace
list_parses = refl

list_renders : render list_template list_model ≡ some (ok list_output)
unfolding render camelmailer.Template.Parse.parse_loop camelmailer.Text.trim_end
    camelmailer.Text.trim_end_where camelmailer.Text.trim_start camelmailer.Text.is_whitespace
list_renders = refl

wrong_close : parse (codes "{{#a}}{{/b}}") ≡ some (err (mismatched_close (codes "a") (codes "b")))
unfolding parse camelmailer.Template.Parse.parse_loop camelmailer.Text.trim_end
    camelmailer.Text.trim_end_where camelmailer.Text.trim_start camelmailer.Text.is_whitespace
wrong_close = refl

parse_total_run : is_some (parse list_template) ≡ true
parse_total_run = parse_total list_template

depth-parse_run : depth list_nodes ≤ 32
depth-parse_run = depth-parse list_template list_nodes list_parses

render-IsBounded_run : byte_len list_output ≤ 524288
render-IsBounded_run = render-IsBounded list_template list_model list_output list_renders

render-inert_run : all is_inert list_output ≡ true
unfolding list_nodes
render-inert_run =
    render-inert list_template list_nodes list_model list_output list_parses
      ((refl, (refl, (refl, tt))), tt) list_renders

abbrev greeting : Nodes
unfolding codes
greeting =
    cons (text (codes "<p>")) (cons (var (codes "name") true) (cons (text (codes "</p>")) nil))
