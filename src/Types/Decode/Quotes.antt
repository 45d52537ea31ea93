-- ===== src/Types/Decode/Quotes.antt =====
-- core/types/tx_quote.go and tx_open_rfq.go: reading an auction record that holds a quote.
use rfqrelayer.Prelude.{
  ℕ, zero, suc, ◌≤◌, ◌≡◌, refl, sym, ◌≢◌, inl, inr, Option, none, List, [], ◌∷◌, map, arith, ◌==◌,
  length, get_elem?, ok, err, panic, ◌>>=◌, Bool-cases, Bytes,
}
use rfqrelayer.Types.Data.{Quote, RfqData, OpenRfq}
use rfqrelayer.Types.Items.{
  Item, from_items, to_items, elems, signable_data_item, quote_item, rfq_data_item, open_rfq_item,
}
use rfqrelayer.Types.Decode.{
  wrong_count, wrong_length, Decoded, at, as_bytes, as_list, must_list, require, uint64_of,
  token_from_interfaces, signable_data_from_interfaces, quote_data_from_interfaces,
  quote_from_interfaces, quotes_from_interfaces, rfq_data_from_interfaces, open_rfq_from_elems,
}
use mathlib.Core.Path.{subst}
use rfqrelayer.Prelude.Numbers.{put_uint64}
use rfqrelayer.Prelude.Int.{uint64}

-- The result is an error or a panic.
abbrev pub Fails : {A : Type 0} → Decoded A → Type 0
Fails (ok a) = ⊥
Fails (err e) = Unit
Fails panic = Unit

Fails-bind :
    {A B : Type 0} (m : Decoded A) (f : A → Decoded B) → ((a : A) → Fails (f a)) → Fails (m >>= f)
Fails-bind (ok a) f h = h a
Fails-bind (err e) f h = tt
Fails-bind panic f h = tt

Fails-first : {A B : Type 0} (m : Decoded A) (f : A → Decoded B) → Fails m → Fails (m >>= f)
Fails-first (ok a) f h = absurd h
Fails-first (err e) f h = tt
Fails-first panic f h = tt

past_end : (xs : List Item) (n : ℕ) → length xs ≤ n → get_elem? xs n ≡ none
past_end [] n h = refl
past_end (x ∷ xs) zero h = absurd (omega arith)
past_end (x ∷ xs) (suc n) h = past_end xs n (omega arith)

at-Fails : (xs : List Item) (n : ℕ) → length xs ≤ n → Fails (at xs n)
at-Fails xs n h =
    let e : at xs n ≡ panic = ground (arith, past_end xs n h) in subst (λ r. Fails r) (sym e) tt

-- No list of items is read as the data of a quote: one of eight elements ends in a panic at the
-- latest, and any other is refused.
pub quote_data-Fails :
    (parse_key : Bytes → Option Bytes) (xs : List Item)
    → Fails (quote_data_from_interfaces parse_key xs)
unfolding quote_data_from_interfaces
quote_data-Fails parse_key xs = elim (Bool-cases (length xs == 8)) [
  | inr other ↦ rw other tt
  | inl eight ↦ rw eight (
      Fails-bind (at xs 0) _ λ x0. Fails-bind (as_bytes x0) _ λ _. Fails-bind (at xs 1) _ λ x1.
        Fails-bind (as_bytes x1) _ λ hash.
          Fails-bind (require (length hash == 32) wrong_length) _ λ _. Fails-bind (at xs 2) _ λ x2.
            Fails-bind (as_bytes x2) _ λ expiry. Fails-bind (uint64_of expiry) _ λ _.
              Fails-bind (at xs 3) _ λ x3. Fails-bind (as_list x3) _ λ base.
                Fails-bind (token_from_interfaces base) _ λ _. Fails-bind (at xs 4) _ λ x4.
                  Fails-bind (as_list x4) _ λ quote. Fails-bind (token_from_interfaces quote) _ λ _.
                    Fails-bind (at xs 5) _ λ x5. Fails-bind (as_bytes x5) _ λ _.
                      Fails-bind (at xs 6) _ λ x6. Fails-bind (as_bytes x6) _ λ _.
                        Fails-bind (at xs 7) _ λ x7.
                          Fails-bind (as_bytes x7) _
                            λ _. Fails-first (at xs 8) _ (at-Fails xs 8 (ground arith)))
]

-- So no quote is read back, and no non-empty list of quotes.
quote-Fails :
    (parse_key : Bytes → Option Bytes) (xs : List Item) → Fails (quote_from_interfaces parse_key xs)
unfolding quote_from_interfaces
quote-Fails parse_key xs = Fails-bind (require (length xs == 5) wrong_count) _ λ _.
    Fails-bind (at xs 0) _ λ x0. Fails-bind (as_bytes x0) _ λ from.
      Fails-bind (require (length from == 20) wrong_length) _ λ _. Fails-bind (at xs 1) _ λ x1.
        Fails-bind (must_list x1) _ λ items.
          Fails-first (quote_data_from_interfaces parse_key items) _
            (quote_data-Fails parse_key items)

quotes-Fails :
    (parse_key : Bytes → Option Bytes) (qs : List Quote)
    → qs ≢ []
    → Fails (quotes_from_interfaces parse_key (from_items (to_items (map quote_item qs))))
unfolding quotes_from_interfaces
quotes-Fails parse_key [] h = absurd (h refl)
quotes-Fails parse_key (q ∷ qs) h =
    Fails-bind (as_list (quote_item q)) _
      λ items. Fails-first (quote_from_interfaces parse_key items) _ (quote-Fails parse_key items)

rfq_data-Fails :
    (parse_key : Bytes → Option Bytes) (d : RfqData)
    → d.quotes ≢ []
    → Fails (rfq_data_from_interfaces parse_key (elems (rfq_data_item d)))
unfolding rfq_data_from_interfaces rfq_data_item
rfq_data-Fails parse_key d h = Fails-bind (require (length d.rfq_tx_hash == 32) wrong_length) _ λ _.
    Fails-bind (as_list (signable_data_item d.rfq_request)) _ λ items.
      Fails-bind (signable_data_from_interfaces items) _ λ _.
        Fails-bind (uint64_of (put_uint64 (uint64 d.rfq_start_time))) _ λ _.
          Fails-bind (uint64_of (put_uint64 (uint64 d.rfq_end_time))) _ λ _.
            Fails-first
              (quotes_from_interfaces parse_key (from_items (to_items (map quote_item d.quotes)))) _
              (quotes-Fails parse_key d.quotes h)

rfq_data-must_list : (d : RfqData) → must_list (rfq_data_item d) ≡ ok (elems (rfq_data_item d))
unfolding rfq_data_item
rfq_data-must_list d = refl

-- An auction record with a quote on it is never read back from its encoding: the decoder refuses
-- it or panics.
pub open_rfq_with_quotes-Fails :
    (parse_key : Bytes → Option Bytes) (t : OpenRfq)
    → t.body.quotes ≢ []
    → Fails (open_rfq_from_elems parse_key (elems (open_rfq_item t)))
unfolding open_rfq_from_elems open_rfq_item
open_rfq_with_quotes-Fails parse_key t h =
    Fails-bind (require (length t.from == 20) wrong_length) _ λ _. rw (rfq_data-must_list t.body) (
      Fails-first (rfq_data_from_interfaces parse_key (elems (rfq_data_item t.body))) _
        (rfq_data-Fails parse_key t.body h))
