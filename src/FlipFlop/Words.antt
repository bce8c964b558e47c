-- ===== src/FlipFlop/Words.antt =====
-- The words of an output are those of what is turned.
use citeproc_rs.Base.{◌∷◌, ◌≡◌, ◌∙◌, true, false, none, some, refl, [], ◌++◌, Option, Bool, ap, sym}
use mathlib.Core.List.{append_assoc, append-nil}
use citeproc_rs.Base.Texts.{Text}
use citeproc_rs.FlipFlop.{
  MicroNode, MicroNodes, micro_text, formatted, quoted, no_case, no_decor, nil, cons, InlineElement,
  Inlines, micro, formatted_inlines, quoted_inlines, text, anchor, div, end, inline, FormatCmd,
  FlipFlopState, append, Flipped, one, many, push, formatted_result, wrap_unless, undecorate, plain,
  in_quotes, plan, flip_flop_node, flip_flop_nodes, flip_flop, flip_flop_inlines, formatted_state,
  same_decoration, same_style, same_weight, same_variant, no_decoration, normal_style,
  normal_weight, normal_variant, text_decoration_none, font_variant_normal, font_weight_normal,
  font_style_normal,
}

-- the texts of the leaves, one after the other
unfoldable mutual
  pub node_words : MicroNode → Text
  node_words (micro_text t) = t
  node_words (formatted nodes _) = micro_words nodes
  node_words (quoted _ _ nodes) = micro_words nodes
  node_words (no_case nodes) = micro_words nodes
  node_words (no_decor nodes) = micro_words nodes

  pub micro_words : MicroNodes → Text
  micro_words nil = []
  micro_words (cons n ns) = node_words n ++ micro_words ns

unfoldable mutual
  unfolding micro_words

  pub inline_words : InlineElement → Text
  inline_words (micro nodes) = micro_words nodes
  inline_words (formatted_inlines ils _) = words ils
  inline_words (quoted_inlines _ _ ils) = words ils
  inline_words (text t) = t
  inline_words (anchor _ _ ils) = words ils
  inline_words (div _ ils) = words ils

  pub words : Inlines → Text
  words end = []
  words (inline i is) = inline_words i ++ words is

abbrev flipped_words : Flipped → Text
flipped_words (one n) = node_words n
flipped_words (many ns) = micro_words ns

append-words : (xs ys : MicroNodes) → micro_words (append xs ys) ≡ micro_words xs ++ micro_words ys
unfolding micro_words append
append-words nil ys = refl
append-words (cons x xs) ys =
    ap (λ w. node_words x ++ w) (append-words xs ys)
    ∙ sym (append_assoc (node_words x) (micro_words xs) (micro_words ys))

push-words :
    (f : Flipped) (rest : MicroNodes)
    → micro_words (push f rest) ≡ flipped_words f ++ micro_words rest
unfolding micro_words push
push-words (one n) rest = refl
push-words (many ns) rest = append-words ns rest

formatted_result-words :
    (cmd : Option FormatCmd) (nodes : MicroNodes)
    → flipped_words (formatted_result cmd nodes) ≡ micro_words nodes
unfolding formatted_result node_words
formatted_result-words none nodes = refl
formatted_result-words (some c) nodes = refl

wrap_unless-words :
    (b : Bool) (cmd : FormatCmd) (out : MicroNodes)
    → micro_words (wrap_unless b cmd out) ≡ micro_words out
unfolding wrap_unless node_words
wrap_unless-words true cmd out = refl
wrap_unless-words false cmd out = append-nil (micro_words out)

undecorate-words :
    (st : FlipFlopState) (out : MicroNodes) → micro_words (undecorate st out) ≡ micro_words out
unfolding undecorate
undecorate-words st out =
    wrap_unless-words (same_decoration st.decoration no_decoration) text_decoration_none _
    ∙ (wrap_unless-words (same_variant st.variant normal_variant) font_variant_normal _
        ∙ (wrap_unless-words (same_weight st.weight normal_weight) font_weight_normal _
            ∙ wrap_unless-words (same_style st.style normal_style) font_style_normal out))

mutual
  unfolding flip_flop_nodes node_words

  flip_flop_node-words :
      (st : FlipFlopState) (n : MicroNode) → flipped_words (flip_flop_node st n) ≡ node_words n
  flip_flop_node-words st (quoted _ _ nodes) = flip_flop_nodes-words (in_quotes st) nodes
  flip_flop_node-words st (formatted nodes cmd) =
      formatted_result-words (plan cmd st).1 (flip_flop_nodes (plan cmd st).0 nodes)
      ∙ flip_flop_nodes-words (plan cmd st).0 nodes
  flip_flop_node-words st (micro_text t) = refl
  flip_flop_node-words st (no_case nodes) = flip_flop_nodes-words st nodes
  flip_flop_node-words st (no_decor nodes) =
      undecorate-words st (flip_flop_nodes (plain st) nodes)
      ∙ flip_flop_nodes-words (plain st) nodes

  flip_flop_nodes-words :
      (st : FlipFlopState) (ns : MicroNodes) → micro_words (flip_flop_nodes st ns) ≡ micro_words ns
  flip_flop_nodes-words st nil = refl
  flip_flop_nodes-words st (cons n ns) =
      push-words (flip_flop_node st n) (flip_flop_nodes st ns)
      ∙ (ap (λ w. w ++ micro_words (flip_flop_nodes st ns)) (flip_flop_node-words st n)
          ∙ ap (λ w. node_words n ++ w) (flip_flop_nodes-words st ns))

-- what stands for an element, if anything does
abbrev kept_words : Option InlineElement → Text
kept_words none = []
kept_words (some i) = inline_words i

inlines-words :
    (o : Option InlineElement) (rest : Inlines)
    → words (elim o [ none ↦ rest | some x ↦ inline x rest ]) ≡ kept_words o ++ words rest
unfolding words
inlines-words none rest = refl
inlines-words (some x) rest = refl

mutual
  unfolding flip_flop_inlines words

  flip_flop-words :
      (st : FlipFlopState) (i : InlineElement) → kept_words (flip_flop st i) ≡ inline_words i
  flip_flop-words st (micro nodes) = flip_flop_nodes-words st nodes
  flip_flop-words st (formatted_inlines ils f) = inlines_lem (formatted_state f st) ils
  flip_flop-words st (quoted_inlines _ _ ils) = inlines_lem (in_quotes st) ils
  flip_flop-words st (anchor title url ils) = inlines_lem st ils
  flip_flop-words st (div mode ils) = inlines_lem st ils
  flip_flop-words st (text []) = refl
  flip_flop-words st (text (c ∷ cs)) = refl

  inlines_lem : (st : FlipFlopState) (ils : Inlines) → words (flip_flop_inlines st ils) ≡ words ils
  inlines_lem st end = refl
  inlines_lem st (inline i is) =
      inlines-words (flip_flop st i) (flip_flop_inlines st is)
      ∙ (ap (λ w. w ++ words (flip_flop_inlines st is)) (flip_flop-words st i)
          ∙ ap (λ w. inline_words i ++ w) (inlines_lem st is))

-- The words of the output, in their order, are left as they are, whatever is turned, unwrapped or
-- left out.
pub flip_flop_inlines-words :
    (st : FlipFlopState) (ils : Inlines) → words (flip_flop_inlines st ils) ≡ words ils
flip_flop_inlines-words st ils = inlines_lem st ils
