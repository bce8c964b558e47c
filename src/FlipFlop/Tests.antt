-- ===== src/FlipFlop/Tests.antt =====
-- Quotations, small capitals and bold text inside each other.
use citeproc_rs.Base.{◌≡◌, true, false, none, some, refl, [], ◌∷◌}
use citeproc_rs.FlipFlop.{
  Formatting, LocalizedQuotes, MicroNodes, micro_text, formatted, quoted, no_decor, nil, cons,
  Inlines, micro, formatted_inlines, quoted_inlines, text, end, inline, FlipFlopState,
  font_weight_bold, font_weight_normal, font_style_italic, font_variant_small_caps, small_caps,
  flip_flop_nodes, flip_flop_inlines, plan, FontStyle, TextDecoration, FontWeight, FontVariant,
  VerticalAlignment,
}
use citeproc_rs.FlipFlop.Turned.{turned_inlines, flip_flop_inlines-turned}
use citeproc_rs.FlipFlop.Words.{words, flip_flop_inlines-words}

abbrev quotes : LocalizedQuotes
quotes = record { outer = (1 ∷ [], 2 ∷ []); inner = (3 ∷ [], 4 ∷ []); punctuation_inside = false }

abbrev unformatted : Formatting
unformatted = record {
  font_style = none;
  font_variant = none;
  font_weight = none;
  vertical_alignment = none;
  text_decoration = none;
}

abbrev initial : FlipFlopState
initial = record {
  in_inner_quotes = false;
  style = FontStyle.normal_style;
  decoration = TextDecoration.no_decoration;
  weight = FontWeight.normal_weight;
  variant = FontVariant.normal_variant;
  alignment = VerticalAlignment.baseline;
}

abbrev leaf : MicroNodes
leaf = cons (micro_text (5 ∷ [])) nil

-- small capitals in a quotation in small capitals, with a quotation in it
abbrev output : Inlines
output =
    inline
      (formatted_inlines
        (inline
          (quoted_inlines false quotes (
            inline
              (micro (
                cons (quoted false quotes (cons (formatted leaf font_variant_small_caps) nil))
                  (cons (no_decor leaf) nil)))
              (inline (text []) end)))
          end)
        (record unformatted { font_variant = some small_caps }))
      end

flip_flop_inlines-turned_example :
    turned_inlines false initial.variant (flip_flop_inlines initial output) ≡ true
flip_flop_inlines-turned_example = flip_flop_inlines-turned initial output

flip_flop_inlines-words_example : words (flip_flop_inlines initial output) ≡ words output
flip_flop_inlines-words_example = flip_flop_inlines-words initial output

abbrev in_bold : MicroNodes → MicroNodes
in_bold ns = cons (formatted ns font_weight_bold) nil

abbrev in_italics : MicroNodes → MicroNodes
in_italics ns = cons (formatted ns font_style_italic) nil

-- Bold text in bold text is in the normal weight, and so is the bold text in it.
bold_in_bold :
    flip_flop_nodes initial (in_bold (in_bold (in_bold leaf)))
    ≡ in_bold
        (cons (formatted (cons (formatted leaf font_weight_normal) nil) font_weight_normal) nil)
unfolding flip_flop_nodes plan
bold_in_bold = refl

-- Italics in italics stay italics below bold text in bold text.
italics_below_bold :
    flip_flop_nodes initial (in_italics (in_bold (in_bold (in_italics leaf))))
    ≡ in_italics (in_bold (cons (formatted (in_italics leaf) font_weight_normal) nil))
unfolding flip_flop_nodes plan
italics_below_bold = refl
