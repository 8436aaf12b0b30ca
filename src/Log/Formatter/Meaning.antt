-- ===== src/Log/Formatter/Meaning.antt =====
-- What a formatter prints and when it is in error (`LogFormatter` of wb_server/log.cc).
use cpp_wb_server.Common.{
  map, ◌≡◌, refl, ◌∙◌, sym, ap, Bool, true, false, ◌&&◌, List, [], ◌∷◌, ◌++◌, Text, none, some,
  is_empty, append_assoc, append-nil, arith, concat_map, concat_map_snoc, if◌then◌else◌,
}
use cpp_wb_server.Log.Level.{Level}
use cpp_wb_server.Log.Event.{Event}
use cpp_wb_server.Log.Pattern.{Piece, text, directive, Pieces, text_piece, take_scan, split, vec_of}
use cpp_wb_server.Log.Pattern.Print.{Part, literal, name, formatted, collect}
use cpp_wb_server.Log.Formatter.{
  parse_error, Item, string, find_item, Formatter, error_text, add_piece, add_pieces, new, Printer,
  format_item, format_items, format,
}

-- `s_format_items` holds a class for this name.
abbrev pub known : Text → Bool
known s = elim (find_item s []) [ none ↦ false | some _ ↦ true ]

abbrev pub known_piece : Piece → Bool
known_piece p = elim p.kind [ text ↦ true | directive ↦ known p.str ]

abbrev pub all_known : List Piece → Bool
all_known [] = true
all_known (p ∷ ps) = known_piece p && all_known ps

pub find_item-known :
    (s f : Text) → (elim (find_item s f) [ none ↦ false | some _ ↦ true ]) ≡ known s
unfolding find_item
find_item-known s f = ground arith

-- The item that a piece becomes.
abbrev piece_item : Piece → Item
piece_item p = elim p.kind [
  | text ↦ string p.str
  | directive ↦ elim (find_item p.str p.fmt) [ none ↦ string (error_text p.str) | some i ↦ i ]
]

add_piece-items : (f : Formatter) (p : Piece) → (add_piece f p).items ≡ f.items ++ piece_item p ∷ []
unfolding add_piece
add_piece-items f p = ground arith

module _ (w : Printer) (l : Level) (e : Event) where
  -- What a directive prints.
  abbrev pub directive_text : Text → Text → Text
  directive_text s f = elim (find_item s f) [ none ↦ error_text s | some i ↦ format_item w l e i ]

  abbrev pub piece_text : Piece → Text
  piece_text p = elim p.kind [ text ↦ p.str | directive ↦ directive_text p.str p.fmt ]

  format_item-piece_item : (p : Piece) → format_item w l e (piece_item p) ≡ piece_text p
  unfolding format_item
  format_item-piece_item p = ground arith

  format_items-concat :
      (ss : Text) (is : List Item)
      → format_items w l e ss is ≡ ss ++ concat_map (format_item w l e) is
  unfolding format_items
  format_items-concat ss [] = sym (append-nil ss)
  format_items-concat ss (i ∷ is) =
      format_items-concat (ss ++ format_item w l e i) is ∙ append_assoc ss _ _

  add_piece-text :
      (f : Formatter) (p : Piece)
      → concat_map (format_item w l e) (add_piece f p).items
        ≡ concat_map (format_item w l e) f.items ++ piece_text p
  add_piece-text f p =
      rw (add_piece-items f p, concat_map_snoc (format_item w l e) f.items (piece_item p))
        (ap (λ t. concat_map (format_item w l e) f.items ++ t) (format_item-piece_item p))

  add_pieces-text :
      (f : Formatter) (ps : List Piece)
      → concat_map (format_item w l e) (add_pieces f ps).items
        ≡ concat_map (format_item w l e) f.items ++ concat_map piece_text ps
  unfolding add_pieces
  add_pieces-text f [] = sym (append-nil _)
  add_pieces-text f (p ∷ ps) =
      add_pieces-text (add_piece f p) ps
      ∙ ap (λ t. t ++ concat_map piece_text ps) (add_piece-text f p)
      ∙ append_assoc _ (piece_text p) _

  pub new-text : (s : Text) → format w l e (new s) ≡ concat_map piece_text (vec_of (split s))
  unfolding new format
  new-text s =
      format_items-concat [] (new s).items
      ∙ add_pieces-text
          (record {
            pattern = s;
            items = [];
            is_error = (split s).failed;
            reports = map (parse_error s) (split s).reported;
          })
          (vec_of (split s))

  -- What the parts print: a text waits for the next directive without braces, or for the end.
  abbrev pub delayed : Text → List Part → Text
  delayed waiting [] = waiting
  delayed waiting (literal s ∷ ps) = delayed (waiting ++ s) ps
  delayed waiting (name s ∷ ps) = waiting ++ (directive_text s [] ++ delayed [] ps)
  delayed waiting (formatted s f ∷ ps) = directive_text s f ++ delayed waiting ps

  flush-text :
      (v : List Piece) (s : Text)
      → concat_map piece_text (if is_empty s then v else v ++ text_piece s ∷ [])
        ≡ concat_map piece_text v ++ s
  flush-text v [] = sym (append-nil _)
  flush-text v (c ∷ s) = concat_map_snoc piece_text v (text_piece (c ∷ s))

  flush_empty-text :
      (v : List Piece) (s : Text)
      → concat_map piece_text (if is_empty s then v ++ text_piece s ∷ [] else v)
        ≡ concat_map piece_text v
  flush_empty-text v [] = concat_map_snoc piece_text v (text_piece []) ∙ append-nil _
  flush_empty-text v (c ∷ s) = refl

  pub collect-delayed :
      (p : Pieces) (ps : List Part)
      → concat_map piece_text (vec_of (collect p ps))
        ≡ concat_map piece_text p.vec ++ delayed p.nstr ps
  unfolding vec_of take_scan
  collect-delayed p [] = flush-text p.vec p.nstr
  collect-delayed p (literal s ∷ ps) = collect-delayed _ ps
  collect-delayed p (name s ∷ ps) =
      collect-delayed _ ps ∙ simp (concat_map_snoc, flush-text p.vec p.nstr, append_assoc)
  collect-delayed p (formatted s f ∷ ps) =
      collect-delayed _ ps ∙ simp (concat_map_snoc, flush_empty-text p.vec p.nstr, append_assoc)
