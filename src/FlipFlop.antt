-- ===== src/FlipFlop.antt =====
-- crates/io/src/output/markup/flip_flop.rs: nested quotes and nested formatting of the output are
-- turned, so that each stands out in what is around it. Its trees are those of
-- crates/io/src/output/markup.rs and crates/io/src/output/micro_html.rs, whose lists are data types of
-- their own here.
mod Tests
pub mod Turned
pub mod Words
use citeproc_rs.Base.{if◌then◌else◌, true, false, none, some, [], ◌∷◌, ℕ, not, ◌&&◌, Option, Bool}
use citeproc_rs.Base.Texts.{Text, unwrap_or}

pub data FontStyle : Type 0 where
  normal_style italic oblique : FontStyle

pub data FontWeight : Type 0 where
  normal_weight bold light : FontWeight

pub data FontVariant : Type 0 where
  normal_variant small_caps : FontVariant

pub data TextDecoration : Type 0 where
  no_decoration underline : TextDecoration

pub data VerticalAlignment : Type 0 where
  baseline superscript subscript : VerticalAlignment

pub record Formatting : Type 0 where
  pub font_style : Option FontStyle
  pub font_variant : Option FontVariant
  pub font_weight : Option FontWeight
  pub vertical_alignment : Option VerticalAlignment
  pub text_decoration : Option TextDecoration

pub data FormatCmd : Type 0 where
  font_style_italic font_style_oblique font_style_normal : FormatCmd
  font_weight_bold font_weight_normal font_weight_light : FormatCmd
  font_variant_small_caps font_variant_normal : FormatCmd
  text_decoration_underline text_decoration_none : FormatCmd
  vertical_alignment_superscript vertical_alignment_subscript : FormatCmd
  vertical_alignment_baseline : FormatCmd
  display_block display_indent display_left_margin display_right_inline : FormatCmd

pub record LocalizedQuotes : Type 0 where
  pub outer : Text × Text
  pub inner : Text × Text
  pub punctuation_inside : Bool

mutual
  pub data MicroNode : Type 0 where
    micro_text : Text → MicroNode
    formatted : MicroNodes → FormatCmd → MicroNode
    quoted : Bool → LocalizedQuotes → MicroNodes → MicroNode
    no_case no_decor : MicroNodes → MicroNode

  pub data MicroNodes : Type 0 where
    nil : MicroNodes
    cons : MicroNode → MicroNodes → MicroNodes

mutual
  pub data InlineElement : Type 0 where
    micro : MicroNodes → InlineElement
    formatted_inlines : Inlines → Formatting → InlineElement
    quoted_inlines : Bool → LocalizedQuotes → Inlines → InlineElement
    text : Text → InlineElement
    -- its title and its url
    anchor : Text → Text → Inlines → InlineElement
    -- the display mode by its number
    div : ℕ → Inlines → InlineElement

  pub data Inlines : Type 0 where
    end : Inlines
    inline : InlineElement → Inlines → Inlines

pub record FlipFlopState : Type 0 where
  pub in_inner_quotes : Bool
  pub style : FontStyle
  pub decoration : TextDecoration
  pub weight : FontWeight
  pub variant : FontVariant
  pub alignment : VerticalAlignment

-- the derived equalities
abbrev pub same_style : FontStyle → FontStyle → Bool
same_style normal_style normal_style = true
same_style italic italic = true
same_style oblique oblique = true
same_style _ _ = false

abbrev pub same_weight : FontWeight → FontWeight → Bool
same_weight normal_weight normal_weight = true
same_weight bold bold = true
same_weight light light = true
same_weight _ _ = false

abbrev pub same_variant : FontVariant → FontVariant → Bool
same_variant normal_variant normal_variant = true
same_variant small_caps small_caps = true
same_variant _ _ = false

abbrev pub same_decoration : TextDecoration → TextDecoration → Bool
same_decoration no_decoration no_decoration = true
same_decoration underline underline = true
same_decoration _ _ = false

-- `FlipFlopState::push_cmd`, without its result
unfoldable pub push_cmd : FormatCmd → FlipFlopState → FlipFlopState
push_cmd font_style_italic st = record st { style = italic }
push_cmd font_style_oblique st = record st { style = oblique }
push_cmd font_style_normal st = record st { style = normal_style }
push_cmd font_weight_bold st = record st { weight = bold }
push_cmd font_weight_normal st = record st { weight = normal_weight }
push_cmd font_weight_light st = record st { weight = light }
push_cmd font_variant_small_caps st = record st { variant = small_caps }
push_cmd font_variant_normal st = record st { variant = normal_variant }
push_cmd text_decoration_underline st = record st { decoration = underline }
push_cmd text_decoration_none st = record st { decoration = no_decoration }
push_cmd vertical_alignment_superscript st = record st { alignment = superscript }
push_cmd vertical_alignment_subscript st = record st { alignment = subscript }
push_cmd vertical_alignment_baseline st = record st { alignment = baseline }
push_cmd _ st = st

pub data Kind : Type 0 where
  of_style of_weight of_variant other_kind : Kind

-- the arms of the match on a command
unfoldable pub kind_of : FormatCmd → Kind
kind_of font_style_italic = of_style
kind_of font_style_normal = of_style
kind_of font_style_oblique = of_style
kind_of font_weight_bold = of_weight
kind_of font_weight_light = of_weight
kind_of font_weight_normal = of_weight
kind_of font_variant_small_caps = of_variant
kind_of font_variant_normal = of_variant
kind_of _ = other_kind

-- the state for the children of a formatted node, and its new command, or `none` where the children
-- take its place
abbrev pub Plan : Type 0
Plan = FlipFlopState × Option FormatCmd

unfoldable pub plan_style : FontStyle → FontStyle → FormatCmd → FlipFlopState → Plan
plan_style outer inner cmd flop =
    if not (same_style outer normal_style) && not (same_style inner normal_style)
    then (record flop { style = normal_style }, some font_style_normal)
    else if same_style outer inner
    then (flop, none)
    else (flop, some cmd)

unfoldable pub plan_weight : FontWeight → FontWeight → FormatCmd → FlipFlopState → Plan
plan_weight outer inner cmd flop =
    if same_weight outer inner && not (same_weight inner normal_weight)
    then (record flop { style = normal_style }, some font_weight_normal)
    else if same_weight outer inner
    then (flop, none)
    else (flop, some cmd)

unfoldable pub plan_variant : FontVariant → FontVariant → FormatCmd → FlipFlopState → Plan
plan_variant outer inner cmd flop =
    if same_variant outer inner && not (same_variant inner normal_variant)
    then (record flop { variant = normal_variant }, some font_variant_normal)
    else if same_variant outer inner
    then (flop, none)
    else (flop, some cmd)

unfoldable pub plan : FormatCmd → FlipFlopState → Plan
unfolding push_cmd kind_of plan_style plan_weight plan_variant
plan cmd st =
    let flop = push_cmd cmd st in
    elim (kind_of cmd) [
      | of_style ↦ plan_style st.style flop.style cmd flop
      | of_weight ↦ plan_weight st.weight flop.weight cmd flop
      | of_variant ↦ plan_variant st.variant flop.variant cmd flop
      | other_kind ↦ (st, some cmd)
    ]

unfoldable pub append : MicroNodes → MicroNodes → MicroNodes
append nil ys = ys
append (cons x xs) ys = cons x (append xs ys)

-- the result for a node: one node, or the nodes that take its place
pub data Flipped : Type 0 where
  one : MicroNode → Flipped
  many : MicroNodes → Flipped

unfoldable pub push : Flipped → MicroNodes → MicroNodes
unfolding append
push (one x) rest = cons x rest
push (many xs) rest = append xs rest

unfoldable pub formatted_result : Option FormatCmd → MicroNodes → Flipped
formatted_result none nodes = many nodes
formatted_result (some cmd) nodes = one (formatted nodes cmd)

-- the state with no decoration
unfoldable pub plain : FlipFlopState → FlipFlopState
plain st = record st {
  style = normal_style;
  weight = normal_weight;
  variant = normal_variant;
  decoration = no_decoration;
}

-- a node around the output, unless the state has the value already
unfoldable pub wrap_unless : Bool → FormatCmd → MicroNodes → MicroNodes
wrap_unless true cmd out = out
wrap_unless false cmd out = cons (formatted out cmd) nil

unfoldable pub undecorate : FlipFlopState → MicroNodes → MicroNodes
unfolding wrap_unless
undecorate st out = wrap_unless (same_decoration st.decoration no_decoration) text_decoration_none (
    wrap_unless (same_variant st.variant normal_variant) font_variant_normal (
      wrap_unless (same_weight st.weight normal_weight) font_weight_normal
        (wrap_unless (same_style st.style normal_style) font_style_normal out)))

-- in the other kind of quotes
unfoldable pub in_quotes : FlipFlopState → FlipFlopState
in_quotes st = record st { in_inner_quotes = not st.in_inner_quotes }

unfoldable mutual
  unfolding plan formatted_result plain undecorate in_quotes push

  pub flip_flop_node : FlipFlopState → MicroNode → Flipped
  flip_flop_node st (quoted is_inner localized children) =
      one
        (quoted (in_quotes st).in_inner_quotes localized (flip_flop_nodes (in_quotes st) children))
  flip_flop_node st (formatted nodes cmd) =
      formatted_result ((plan cmd st).1) (flip_flop_nodes ((plan cmd st).0) nodes)
  flip_flop_node st (micro_text t) = one (micro_text t)
  flip_flop_node st (no_case nodes) = one (no_case (flip_flop_nodes st nodes))
  flip_flop_node st (no_decor nodes) = many (undecorate st (flip_flop_nodes (plain st) nodes))

  pub flip_flop_nodes : FlipFlopState → MicroNodes → MicroNodes
  flip_flop_nodes st nil = nil
  flip_flop_nodes st (cons n ns) = push (flip_flop_node st n) (flip_flop_nodes st ns)

-- one attribute of a formatted element: left out where the state has it
unfoldable pub unless_same : {A : Type 0} → (A → A → Bool) → A → Option A → Option A
unless_same same outer none = none
unless_same same outer (some a) = if same a outer then none else some a

unfoldable pub new_formatting : Formatting → FlipFlopState → Formatting
unfolding unless_same
new_formatting f st = record f {
  font_style = unless_same same_style st.style f.font_style;
  font_weight = unless_same same_weight st.weight f.font_weight;
  font_variant = unless_same same_variant st.variant f.font_variant;
}

unfoldable pub formatted_state : Formatting → FlipFlopState → FlipFlopState
formatted_state f st = record st {
  style = unwrap_or st.style f.font_style;
  weight = unwrap_or st.weight f.font_weight;
  variant = unwrap_or st.variant f.font_variant;
}

unfoldable mutual
  unfolding flip_flop_nodes new_formatting formatted_state in_quotes

  -- `none` for an empty text, whose place nothing takes
  pub flip_flop : FlipFlopState → InlineElement → Option InlineElement
  flip_flop st (micro nodes) = some (micro (flip_flop_nodes st nodes))
  flip_flop st (formatted_inlines ils f) =
      some (formatted_inlines (flip_flop_inlines (formatted_state f st) ils) (new_formatting f st))
  flip_flop st (quoted_inlines is_inner localized inlines) = some (
      quoted_inlines (in_quotes st).in_inner_quotes localized
        (flip_flop_inlines (in_quotes st) inlines))
  flip_flop st (anchor title url content) = some (anchor title url (flip_flop_inlines st content))
  flip_flop st (div mode inlines) = some (div mode (flip_flop_inlines st inlines))
  flip_flop st (text []) = none
  flip_flop st (text (c ∷ cs)) = some (text (c ∷ cs))

  pub flip_flop_inlines : FlipFlopState → Inlines → Inlines
  flip_flop_inlines st end = end
  flip_flop_inlines st (inline i is) = elim (flip_flop st i) [
    | none ↦ flip_flop_inlines st is
    | some x ↦ inline x (flip_flop_inlines st is)
  ]

-- `FlipFlopState::from_formatting`
unfoldable pub from_formatting : Formatting → FlipFlopState
from_formatting f = record {
  in_inner_quotes = false;
  style = unwrap_or normal_style f.font_style;
  weight = unwrap_or normal_weight f.font_weight;
  variant = unwrap_or normal_variant f.font_variant;
  decoration = unwrap_or no_decoration f.text_decoration;
  alignment = unwrap_or baseline f.vertical_alignment;
}
