-- ===== src/Template/Parse.antt =====
-- `parse` of crates/camelmailer-core/src/template.rs. The loop takes fuel, and `none` means that it
-- ran out; every round but the last shortens the text that is left.
pub mod Laws
pub mod Depth
use camelmailer.Base.{
  ℕ, zero, suc, Bool, true, false, ◌||◌, Option, none, some, List, [], ◌∷◌, leb, ◌==◌,
  if◌then◌else◌, is_empty, length, not, drop,
}
use camelmailer.Text.{Text, codes, trim, starts_with, strip_prefix, text_eq}
use camelmailer.Template.{
  RenderError, unclosed_tag, unclosed_section, unexpected_close, mismatched_close, too_deep, Result,
  ok, err, ◌>>=◌, Node, text, var, section, Nodes, nil, cons, push_node,
}

abbrev pub max_depth : ℕ
max_depth = 32

pub record Frame : Type 0 where
  pub path : Text
  pub inverted : Bool
  pub children : Nodes

-- The state of the loop. The innermost open section stands first in the stack.
pub record Parser : Type 0 where
  pub root : Nodes
  pub stack : List Frame

-- The texts before and after the first place where `p` stands, by `s.find(p)`.
unfoldable pub split_text : Text → Text → Option (Text × Text)
unfolding starts_with
split_text p [] = if is_empty p then some ([], []) else none
split_text p (x ∷ s) = elim (starts_with (x ∷ s) p) [
  | true ↦ some ([], drop (length p) (x ∷ s))
  | false ↦ elim (split_text p s) [ none ↦ none | some (a, b) ↦ some (x ∷ a, b) ]
]

-- `sink(..).push(..)`
push_to : Node → Nodes → List Frame → Parser
push_to n root [] = record { root = push_node root n; stack = [] }
push_to n root (f ∷ fs) = record {
  root = root;
  stack = record f { children = push_node f.children n } ∷ fs;
}

unfoldable pub push : Node → Parser → Parser
unfolding push_to push_node
push n p = push_to n p.root p.stack

unfoldable pub push_text : Text → Parser → Parser
unfolding push
push_text t p = if is_empty t then p else push (text t) p

unfoldable pub open_section : Text → Bool → Parser → Result Parser
open_section path inverted p =
    if leb max_depth (length p.stack)
    then err too_deep
    else ok
        (record p { stack = record { path = path; inverted = inverted; children = nil } ∷ p.stack })

unfoldable pub close_section : Text → Nodes → List Frame → Result Parser
unfolding push text_eq
close_section path root [] = err (unexpected_close path)
close_section path root (f ∷ fs) =
    if text_eq f.path path
    then ok (push (section f.path f.inverted f.children) (record { root = root; stack = fs }))
    else err (mismatched_close f.path path)

-- What a trimmed tag does.
unfoldable pub tag_step : Text → Parser → Result Parser
unfolding open_section close_section push trim
tag_step [] p = ok p
tag_step (c ∷ t) p =
    if c == b'!'
    then ok p
    else if c == b'#' || c == b'^'
    then open_section (trim t) (c == b'^') p
    else if c == b'/'
    then close_section (trim t) p.root p.stack
    else if c == b'&'
    then ok (push (var (trim t) false) p)
    else ok (push (var (c ∷ t) true) p)

raw_tag : Parser → Option (Text × Text) → Result (Text × Parser)
raw_tag p none = err unclosed_tag
raw_tag p (some (path, rest)) = ok (rest, push (var (trim path) false) p)

plain_tag : Parser → Option (Text × Text) → Result (Text × Parser)
plain_tag p none = err unclosed_tag
plain_tag p (some (tag, rest)) = tag_step (trim tag) p >>= λ p'. ok (rest, p')

any_tag : Text → Parser → Option Text → Result (Text × Parser)
any_tag after p (some triple) = raw_tag p (split_text (codes "}}}") triple)
any_tag after p none = plain_tag p (split_text (codes "}}") after)

-- One tag, from what stands behind its opening braces.
unfoldable pub after_open : Text → Parser → Result (Text × Parser)
unfolding any_tag raw_tag plain_tag tag_step split_text strip_prefix codes trim push
after_open after p = any_tag after p (strip_prefix after (codes "{"))

unfoldable pub parse_loop : ℕ → Text → Parser → Option (Result Parser)
unfolding after_open split_text push_text codes
parse_loop zero rest p = none
parse_loop (suc fuel) rest p = elim (split_text (codes "{{") rest) [
  | none ↦ some (ok (push_text rest p))
  | some (before, after) ↦ elim (after_open after (push_text before p)) [
    | err e ↦ some (err e)
    | ok (rest', p') ↦ parse_loop fuel rest' p'
  ]
]

unfoldable pub finish : Parser → Result Nodes
finish p = if is_empty p.stack then ok p.root else err unclosed_section

-- The length of the template is enough fuel.
unfoldable pub parse : Text → Option (Result Nodes)
unfolding finish
parse template =
    elim (parse_loop (suc (length template)) template (record { root = nil; stack = [] })) [
      | none ↦ none
      | some r ↦ some (r >>= finish)
    ]
