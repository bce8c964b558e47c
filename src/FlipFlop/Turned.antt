-- ===== src/FlipFlop/Turned.antt =====
-- Quotes alternate, and small capitals stand out, in what crates/io/src/output/markup/flip_flop.rs
-- returns.
use citeproc_rs.Base.{
  ◌∙◌, [], ◌∷◌, ◌&&◌, refl, arith, ◌≡◌, if◌then◌else◌, true, false, none, some, Option, Bool, not,
  ap, sym,
}
use citeproc_rs.Base.Texts.{unwrap_or}
use citeproc_rs.FlipFlop.{
  FontVariant, normal_variant, small_caps, same_variant, same_style, same_weight, same_decoration,
  no_decoration, normal_style, normal_weight, text_decoration_none, font_weight_normal,
  font_style_normal, Formatting, FormatCmd, font_variant_small_caps, font_variant_normal, MicroNode,
  MicroNodes, micro_text, formatted, quoted, no_case, no_decor, nil, cons, InlineElement, Inlines,
  micro, formatted_inlines, quoted_inlines, text, anchor, div, end, inline, FlipFlopState, Plan,
  plan, push_cmd, kind_of, plan_style, plan_weight, plan_variant, append, Flipped, one, many, push,
  formatted_result, wrap_unless, undecorate, plain, in_quotes, flip_flop_node, flip_flop_nodes,
  unless_same, new_formatting, formatted_state, flip_flop, flip_flop_inlines, same_decoration,
  no_decoration, text_decoration_none, same_weight, normal_weight, font_weight_normal,
}

-- the variant that a command asks for
unfoldable pub variant_of : FormatCmd → Option FontVariant
variant_of font_variant_small_caps = some small_caps
variant_of font_variant_normal = some normal_variant
variant_of _ = none

-- a variant that is not the one around it
abbrev pub is_change : Option FontVariant → FontVariant → Bool
is_change none outer = true
is_change (some v) outer = not (same_variant v outer)

-- Within quotes of one kind and a variant: every quotation is in the other kind, every command for a
-- variant changes it, and no node is left that asks for no decoration.
unfoldable mutual
  unfolding variant_of

  pub turned_node : Bool → FontVariant → MicroNode → Bool
  turned_node q v (micro_text t) = true
  turned_node q v (formatted nodes cmd) =
      is_change (variant_of cmd) v && turned q (unwrap_or v (variant_of cmd)) nodes
  turned_node q v (quoted is_inner localized nodes) =
      (if q then not is_inner else is_inner) && turned (not q) v nodes
  turned_node q v (no_case nodes) = turned q v nodes
  turned_node q v (no_decor nodes) = false

  pub turned : Bool → FontVariant → MicroNodes → Bool
  turned q v nil = true
  turned q v (cons n ns) = turned_node q v n && turned q v ns

unfoldable mutual
  unfolding turned

  pub turned_inline : Bool → FontVariant → InlineElement → Bool
  turned_inline q v (micro nodes) = turned q v nodes
  turned_inline q v (formatted_inlines ils f) =
      is_change f.font_variant v && turned_inlines q (unwrap_or v f.font_variant) ils
  turned_inline q v (quoted_inlines is_inner localized ils) =
      (if q then not is_inner else is_inner) && turned_inlines (not q) v ils
  turned_inline q v (text t) = true
  turned_inline q v (anchor title url ils) = turned_inlines q v ils
  turned_inline q v (div mode ils) = turned_inlines q v ils

  pub turned_inlines : Bool → FontVariant → Inlines → Bool
  turned_inlines q v end = true
  turned_inlines q v (inline i is) = turned_inline q v i && turned_inlines q v is

-- the variant of the children, by the new command
abbrev child_variant : FontVariant → Option FormatCmd → FontVariant
child_variant v none = v
child_variant v (some cmd) = unwrap_or v (variant_of cmd)

abbrev changes : FontVariant → Option FormatCmd → Bool
changes v none = true
changes v (some cmd) = is_change (variant_of cmd) v

record Planned (st : FlipFlopState) (p : Plan) : Type 0 where
  same_quotes : (p.0).in_inner_quotes ≡ st.in_inner_quotes
  children : (p.0).variant ≡ child_variant st.variant (p.1)
  change : changes st.variant (p.1) ≡ true

plan-Planned : (cmd : FormatCmd) (st : FlipFlopState) → Planned st (plan cmd st)
unfolding plan push_cmd kind_of plan_style plan_weight plan_variant variant_of
plan-Planned cmd st = record {
  same_quotes = ground arith;
  children = ground arith;
  change = ground arith;
}

append-turned :
    (q : Bool) (v : FontVariant) (xs ys : MicroNodes)
    → turned q v (append xs ys) ≡ (turned q v xs && turned q v ys)
unfolding turned append
append-turned q v nil ys = refl
append-turned q v (cons x xs) ys = ground (arith, append-turned q v xs ys)

abbrev flipped_turned : Bool → FontVariant → Flipped → Bool
flipped_turned q v (one n) = turned_node q v n
flipped_turned q v (many ns) = turned q v ns

push-turned :
    (q : Bool) (v : FontVariant) (f : Flipped) (rest : MicroNodes)
    → turned q v (push f rest) ≡ (flipped_turned q v f && turned q v rest)
unfolding turned push
push-turned q v (one n) rest = refl
push-turned q v (many ns) rest = append-turned q v ns rest

formatted_result-turned :
    (q : Bool) (v : FontVariant) (cmd : Option FormatCmd) (nodes : MicroNodes)
    → changes v cmd ≡ true
    → turned q (child_variant v cmd) nodes ≡ true
    → flipped_turned q v (formatted_result cmd nodes) ≡ true
unfolding formatted_result turned_node
formatted_result-turned q v none nodes h k = k
formatted_result-turned q v (some c) nodes h k = ground (arith, h, k)

-- a command without a variant
wrap_unless-turned :
    (q : Bool) (v : FontVariant) (b : Bool) (cmd : FormatCmd) (out : MicroNodes)
    → variant_of cmd ≡ none
    → turned q v out ≡ true
    → turned q v (wrap_unless b cmd out) ≡ true
unfolding wrap_unless turned
wrap_unless-turned q v true cmd out n h = h
wrap_unless-turned q v false cmd out n h = ground (arith, n, h)

-- a wrapper for the plain variant
wrap_variant-turned :
    (q : Bool) (v : FontVariant) (out : MicroNodes)
    → turned q normal_variant out ≡ true
    → turned q v (wrap_unless (same_variant v normal_variant) font_variant_normal out) ≡ true
unfolding wrap_unless turned variant_of
wrap_variant-turned q normal_variant out h = h
wrap_variant-turned q small_caps out h = ground (arith, h)

undecorate-turned :
    (st : FlipFlopState) (q : Bool) (out : MicroNodes)
    → turned q normal_variant out ≡ true
    → turned q st.variant (undecorate st out) ≡ true
unfolding undecorate variant_of
undecorate-turned st q out h =
    wrap_unless-turned q st.variant (same_decoration st.decoration no_decoration)
      text_decoration_none _ refl
      (wrap_variant-turned q st.variant _ (
        wrap_unless-turned q normal_variant (same_weight st.weight normal_weight) font_weight_normal
          _ refl
          (wrap_unless-turned q normal_variant (same_style st.style normal_style) font_style_normal
            out refl h)))

mutual
  unfolding flip_flop_nodes turned in_quotes plain

  flip_flop_node-turned :
      (st : FlipFlopState) (n : MicroNode)
      → flipped_turned st.in_inner_quotes st.variant (flip_flop_node st n) ≡ true
  flip_flop_node-turned st (quoted _ _ nodes) =
      ground (arith, flip_flop_nodes-turned (in_quotes st) nodes)
  flip_flop_node-turned st (formatted nodes cmd) =
      let planned = plan-Planned cmd st in
      formatted_result-turned st.in_inner_quotes st.variant (plan cmd st).1
        (flip_flop_nodes (plan cmd st).0 nodes) planned.change
        (ap (λ v. turned st.in_inner_quotes v (flip_flop_nodes (plan cmd st).0 nodes))
            (sym planned.children)
          ∙ (ap (λ q. turned q (plan cmd st).0.variant (flip_flop_nodes (plan cmd st).0 nodes))
                (sym planned.same_quotes)
              ∙ flip_flop_nodes-turned (plan cmd st).0 nodes))
  flip_flop_node-turned st (micro_text t) = refl
  flip_flop_node-turned st (no_case nodes) = flip_flop_nodes-turned st nodes
  flip_flop_node-turned st (no_decor nodes) =
      undecorate-turned st st.in_inner_quotes (flip_flop_nodes (plain st) nodes)
        (flip_flop_nodes-turned (plain st) nodes)

  flip_flop_nodes-turned :
      (st : FlipFlopState) (ns : MicroNodes)
      → turned st.in_inner_quotes st.variant (flip_flop_nodes st ns) ≡ true
  flip_flop_nodes-turned st nil = refl
  flip_flop_nodes-turned st (cons n ns) =
      push-turned st.in_inner_quotes st.variant (flip_flop_node st n) (flip_flop_nodes st ns)
      ∙ ground (arith, flip_flop_node-turned st n, flip_flop_nodes-turned st ns)

-- the formatting of an element, and the variant in it
new_formatting-variant :
    (f : Formatting) (st : FlipFlopState)
    → (is_change (new_formatting f st).font_variant st.variant ≡ true)
      × (unwrap_or st.variant (new_formatting f st).font_variant ≡ (formatted_state f st).variant)
unfolding new_formatting formatted_state unless_same
new_formatting-variant f st = (ground arith, ground arith)

kept_turned : Bool → FontVariant → Option InlineElement → Bool
kept_turned q v none = true
kept_turned q v (some i) = turned_inline q v i

inlines-turned :
    (q : Bool) (v : FontVariant) (o : Option InlineElement) (rest : Inlines)
    → turned_inlines q v (elim o [ none ↦ rest | some x ↦ inline x rest ])
      ≡ (kept_turned q v o && turned_inlines q v rest)
unfolding turned_inlines kept_turned
inlines-turned q v none rest = refl
inlines-turned q v (some x) rest = refl

mutual
  unfolding flip_flop_inlines turned_inlines in_quotes kept_turned

  flip_flop-turned :
      (st : FlipFlopState) (i : InlineElement)
      → kept_turned st.in_inner_quotes st.variant (flip_flop st i) ≡ true
  flip_flop-turned st (micro nodes) = flip_flop_nodes-turned st nodes
  flip_flop-turned st (formatted_inlines ils f) =
      let (change, variant) = new_formatting-variant f st in
      let inside = flip_flop_inlines (formatted_state f st) ils in
      ap
        (λ b.
          b
          && turned_inlines st.in_inner_quotes
              (unwrap_or st.variant (new_formatting f st).font_variant) inside)
        change
      ∙ (ap (λ v. turned_inlines st.in_inner_quotes v inside) variant
          ∙ inlines_turned_lem (formatted_state f st) ils)
  flip_flop-turned st (quoted_inlines _ _ ils) =
      ground (arith, inlines_turned_lem (in_quotes st) ils)
  flip_flop-turned st (anchor title url ils) = inlines_turned_lem st ils
  flip_flop-turned st (div mode ils) = inlines_turned_lem st ils
  flip_flop-turned st (text []) = refl
  flip_flop-turned st (text (c ∷ cs)) = refl

  inlines_turned_lem :
      (st : FlipFlopState) (ils : Inlines)
      → turned_inlines st.in_inner_quotes st.variant (flip_flop_inlines st ils) ≡ true
  inlines_turned_lem st end = refl
  inlines_turned_lem st (inline i is) =
      inlines-turned st.in_inner_quotes st.variant (flip_flop st i) (flip_flop_inlines st is)
      ∙ ground (arith, flip_flop-turned st i, inlines_turned_lem st is)

-- In the output every quotation is of the other kind than the one around it, a command or a formatted
-- element sets a variant only where another one is around it, and no node is left that asks for no
-- decoration.
pub flip_flop_inlines-turned :
    (st : FlipFlopState) (ils : Inlines)
    → turned_inlines st.in_inner_quotes st.variant (flip_flop_inlines st ils) ≡ true
flip_flop_inlines-turned st ils = inlines_turned_lem st ils
