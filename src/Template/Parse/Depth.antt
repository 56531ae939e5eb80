-- ===== src/Template/Parse/Depth.antt =====
-- The nesting of a parsed template.
use camelmailer.Base.{
  ℕ, zero, suc, ◌+◌, ◌≤◌, ◌≡◌, Bool, true, false, ◌||◌, Option, none, some, List, [], ◌∷◌, leb,
  ◌==◌, if◌then◌else◌, is_empty, length, ◌-◌, arith, OnSome, OnSome_eq, if_both,
}
use camelmailer.Text.{Text, codes, trim, strip_prefix, text_eq}
use camelmailer.Template.{
  Result, ok, err, ◌>>=◌, OnOk, OnOk->>=, Node, text, var, section, Nodes, nil, cons, push_node,
}
use camelmailer.Template.Parse.{
  Frame, Parser, split_text, push_to, push, push_text, open_section, close_section, tag_step,
  raw_tag, plain_tag, any_tag, after_open, parse_loop, finish, parse,
}

-- How many sections stand inside one another.
abbrev mutual
  pub depth_node : Node → ℕ
  depth_node (text t) = 0
  depth_node (var path escaped) = 0
  depth_node (section path inverted children) = suc (depth children)

  pub depth : Nodes → ℕ
  depth nil = 0
  depth (cons n ns) = if leb (depth_node n) (depth ns) then depth ns else depth_node n

depth-push_node :
    (k : ℕ) (ms : Nodes) (n : Node) → depth ms ≤ k → depth_node n ≤ k → depth (push_node ms n) ≤ k
unfolding push_node
depth-push_node k nil n h e = ground arith
depth-push_node k (cons m ms) n h e = ground (arith, depth-push_node k ms n)

-- Each open section leaves room for the ones around it.
abbrev Fits : List Frame → Type 0
Fits [] = Unit
Fits (f ∷ fs) = (depth f.children + suc (length fs) ≤ 32) × Fits fs

record IsShallow (p : Parser) : Type 0 where
  root_fits : depth p.root ≤ 32
  frames_fit : Fits p.stack
  few_frames : length p.stack ≤ 32

push_to-IsShallow :
    (n : Node) (root : Nodes) (fs : List Frame)
    → IsShallow (record { root = root; stack = fs })
    → depth_node n + length fs ≤ 32
    → IsShallow (push_to n root fs)
unfolding push_to
push_to-IsShallow n root [] h e = record {
  root_fits = depth-push_node 32 root n h.root_fits (omega arith);
  frames_fit = tt;
  few_frames = omega arith;
}
push_to-IsShallow n root (f ∷ fs) h e = record {
  root_fits = h.root_fits;
  frames_fit = (
    (let k =
          depth-push_node (31 - length fs) f.children n (omega (arith, h.frames_fit.0))
            (omega arith) in
        omega (arith, k, h.few_frames)),
    h.frames_fit.1,
  );
  few_frames = h.few_frames;
}

push-IsShallow :
    (n : Node) (p : Parser)
    → IsShallow p
    → depth_node n + length p.stack ≤ 32
    → IsShallow (push n p)
unfolding push
push-IsShallow n p h e = push_to-IsShallow n p.root p.stack h e

push_text-IsShallow : (t : Text) (p : Parser) → IsShallow p → IsShallow (push_text t p)
unfolding push_text
push_text-IsShallow t p h =
    if_both IsShallow (is_empty t) (λ _. h)
      (λ _. push-IsShallow (text t) p h (omega (arith, h.few_frames)))

open_section-IsShallow :
    (path : Text) (inverted : Bool) (p : Parser)
    → IsShallow p
    → OnOk IsShallow (open_section path inverted p)
unfolding open_section
open_section-IsShallow path inverted p h = ground arith

close_section-IsShallow :
    (path : Text) (root : Nodes) (fs : List Frame)
    → IsShallow (record { root = root; stack = fs })
    → OnOk IsShallow (close_section path root fs)
unfolding close_section
close_section-IsShallow path root [] h = tt
close_section-IsShallow path root (f ∷ fs) h =
    if_both (OnOk IsShallow) (text_eq f.path path)
      (λ _.
        push-IsShallow (section f.path f.inverted f.children) (record { root = root; stack = fs })
          (record {
            root_fits = h.root_fits;
            frames_fit = h.frames_fit.1;
            few_frames = omega (arith, h.few_frames);
          })
          (omega (arith, h.frames_fit.0)))
      (λ _. tt)

tag_step-IsShallow : (t : Text) (p : Parser) → IsShallow p → OnOk IsShallow (tag_step t p)
unfolding tag_step
tag_step-IsShallow [] p h = h
tag_step-IsShallow (c ∷ t) p h =
    if_both (OnOk IsShallow) (c == b'!') (λ _. h)
      (λ _.
        if_both (OnOk IsShallow) (c == b'#' || c == b'^')
          (λ _. open_section-IsShallow (trim t) (c == b'^') p h)
          (λ _.
            if_both (OnOk IsShallow) (c == b'/')
              (λ _. close_section-IsShallow (trim t) p.root p.stack h)
              (λ _.
                if_both (OnOk IsShallow) (c == b'&')
                  (λ _. push-IsShallow (var (trim t) false) p h (omega (arith, h.few_frames)))
                  (λ _. push-IsShallow (var (c ∷ t) true) p h (omega (arith, h.few_frames))))))

any_tag-IsShallow :
    (after : Text) (p : Parser) (o : Option Text)
    → IsShallow p
    → OnOk (λ r. IsShallow r.1) (any_tag after p o)
unfolding any_tag raw_tag plain_tag
any_tag-IsShallow after p (some triple) h = raw (split_text (codes "}}}") triple)
  where
    raw : (o : Option (Text × Text)) → OnOk (λ r. IsShallow r.1) (raw_tag p o)
    raw none = tt
    raw (some (path, rest)) =
        push-IsShallow (var (trim path) false) p h (omega (arith, h.few_frames))
any_tag-IsShallow after p none h = plain (split_text (codes "}}") after)
  where
    plain : (o : Option (Text × Text)) → OnOk (λ r. IsShallow r.1) (plain_tag p o)
    plain none = tt
    plain (some (tag, rest)) =
        OnOk->>= IsShallow (λ (r : Text × Parser). IsShallow r.1) (tag_step (trim tag) p)
          (λ p'. ok (rest, p')) (tag_step-IsShallow (trim tag) p h) (λ p' k. k)

parse_loop-IsShallow :
    (fuel : ℕ) (rest : Text) (p : Parser)
    → IsShallow p
    → OnSome (OnOk IsShallow) (parse_loop fuel rest p)
unfolding parse_loop after_open
parse_loop-IsShallow zero rest p h = tt
parse_loop-IsShallow (suc fuel) rest p h =
    place (split_text (codes "{{") rest) (λ r q. parse_loop-IsShallow fuel r q)
  where
    tag :
        (r : Result (Text × Parser))
        → OnOk (λ r. IsShallow r.1) r
        → ((rest' : Text) (q : Parser)
            → IsShallow q
            → OnSome (OnOk IsShallow) (parse_loop fuel rest' q))
        → OnSome (OnOk IsShallow) (elim r as (λ _. Option (Result Parser)) [
          | err e ↦ some (err e)
          | ok (rest', p') ↦ parse_loop fuel rest' p'
        ])
    tag (err e) k ih = tt
    tag (ok (rest', q)) k ih = ih rest' q k

    place :
        (o : Option (Text × Text))
        → ((rest' : Text) (q : Parser)
            → IsShallow q
            → OnSome (OnOk IsShallow) (parse_loop fuel rest' q))
        → OnSome (OnOk IsShallow) (elim o as (λ _. Option (Result Parser)) [
          | none ↦ some (ok (push_text rest p))
          | some (before, after) ↦
              elim (after_open after (push_text before p)) as (λ _. Option (Result Parser)) [
                | err e ↦ some (err e)
                | ok (rest', p') ↦ parse_loop fuel rest' p'
              ]
        ])
    place none ih = push_text-IsShallow rest p h
    place (some (before, after)) ih =
        tag (after_open after (push_text before p))
          (any_tag-IsShallow after (push_text before p) (strip_prefix after (codes "{"))
            (push_text-IsShallow before p h))
          ih

-- The sections of a template that parses stand at most 32 deep in one another.
pub depth-parse :
    (template : Text) (nodes : Nodes) → parse template ≡ some (ok nodes) → depth nodes ≤ 32
unfolding parse
depth-parse template nodes e =
    OnSome_eq (OnOk (λ (ns : Nodes). depth ns ≤ 32))
      (finished (parse_loop (suc (length template)) template (record { root = nil; stack = [] })) (
        parse_loop-IsShallow (suc (length template)) template (record { root = nil; stack = [] })
          (record { root_fits = omega arith; frames_fit = tt; few_frames = omega arith })))
      e
  where
    ended :
        (r : Result Parser) → OnOk IsShallow r → OnOk (λ (ns : Nodes). depth ns ≤ 32) (r >>= finish)
    ended (err e) h = tt
    ended (ok p) h = unfold finish in ground arith

    finished :
        (o : Option (Result Parser))
        → OnSome (OnOk IsShallow) o
        → OnSome
            (OnOk (λ (ns : Nodes). depth ns ≤ 32))
            (elim o as (λ _. Option (Result Nodes)) [ none ↦ none | some r ↦ some (r >>= finish) ])
    finished none h = tt
    finished (some r) h = ended r h
