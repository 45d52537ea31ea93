-- ===== src/Api/Server/Quotes.antt =====
-- api/server.go: the quotes that handlePostQuote accepts, and where they go.
use rfqrelayer.Prelude.{
  ◌≡◌, refl, ap, ◌∙◌, true, Option, none, some, List, [], ◌∷◌, ◌++◌, map, arith, ◌==◌,
  if◌then◌else◌, length, ok, Bytes, bytes_eq, bytes_eq_refl,
}
use rfqrelayer.Rfqdb.Interfaces.{Database, IsKeyValue, answer}
use rfqrelayer.Prelude.Assoc.{lookup}
use rfqrelayer.Rawdb.Table.{new_table}
use rfqrelayer.Rawdb.Table.Contract.{new_table-IsKeyValue}
use rfqrelayer.Common.Bytes.{decode_string}
use rfqrelayer.Common.Types.{hex_to_address}
use rfqrelayer.Types.Data.{QuoteData, Quote, TxData, quote, new_tx, set_signature_values}
use rfqrelayer.Types.Items.{Item, quote_item, list_of}
use rfqrelayer.Types.Signing.{signature_values, with_signature}
use rfqrelayer.Crypto.Signatures.{Signature, read_signature, deserialize_sig_from_hex_string}
use rfqrelayer.Crypto.Signatures.Words.{AreBytes}
use rfqrelayer.Crypto.Signatures.RoundTrip.{deserialize_sig_lem, to_bytes-read_signature}
use rfqrelayer.Core.Auction.{
  Auction, Chain, quote_tx, quotes_table, existing_quotes, put_in, write_quote, write_rfq_txs,
  get_open_rfq_by_hash,
}
use rfqrelayer.Core.Auction.Rounds.{IsValid}
use rfqrelayer.Core.Auction.Opening.{update_active_rfq-found, quoted-IsValid}
use rfqrelayer.Network.Events.{Relay}
use rfqrelayer.Api.Server.{QuoteBody, new_quote, signed_quote, tx_of, submit, accept_quote}

-- The quote with the values of a signature.
abbrev pub with_values : Quote → Signature → Quote
with_values q sig = record q { v = some sig.v; r = some sig.r; s = some sig.s }

get_open_rfq_by_hash-ok :
    {S : Type 0} (h : Bytes) (c : Chain S) (a : Auction)
    → get_open_rfq_by_hash h c ≡ ok a
    → lookup h c.open_rfqs_map ≡ some a
unfolding get_open_rfq_by_hash
get_open_rfq_by_hash-ok h c a e = ground (arith, e)

-- The transaction of a body whose signature is 65 bytes.
pub signed_quote_lem :
    (b : QuoteBody) (q : QuoteData) (sig : Bytes)
    → decode_string b.signature ≡ some sig
    → length sig ≡ 65
    → AreBytes sig
    → signed_quote b q
      ≡ ok (record {
        inner = quote (with_values (new_quote (hex_to_address b.from) q) (read_signature sig));
      })
unfolding signed_quote with_signature new_tx set_signature_values deserialize_sig_from_hex_string
    signature_values
signed_quote_lem b q sig e l h =
    let size : (length sig == 65) ≡ true = ground arith in
    let read : deserialize_sig_from_hex_string b.signature ≡ ok (read_signature sig) =
      rw (e, deserialize_sig_from_hex_string) (deserialize_sig_lem sig l) in
    let values : signature_values sig ≡ ok (read_signature sig) =
      rw (size, signature_values) refl in
    rw (read, signed_quote)
      (rw (to_bytes-read_signature sig l h) (rw (values, with_signature) refl))

-- The quotes that the table has in a row.
abbrev pub quotes_in : (Bytes → Option (List Quote)) → Option Bytes → Option (List Quote)
quotes_in decode_quotes none = some []
quotes_in decode_quotes (some b) = decode_quotes b

module _ {S I : Type 0} {d : Database S I} {IsOpen : S → Type 0} {view : S → Bytes → Option Bytes}
    (laws : IsKeyValue d IsOpen view) {encode : Item → Option Bytes}
    (encodes : (x : Item) → (b : Bytes) × (encode x ≡ some b))
    (decode_quotes : Bytes → Option (List Quote)) (hash : TxData → Bytes) where
  -- A chain on which a quote was written: the database alone has changed.
  pub record Recorded (q : Quote) (qs : List Quote) (c c' : Chain S) : Type 0 where
    pub db : S
    pub only : c' ≡ record c { db = db }
    pub open_db : IsOpen db
    pub row : Bytes
    pub encoded : encode (list_of (map quote_item (qs ++ q ∷ []))) ≡ some row
    pub rows :
        (j : Bytes)
        → view db (quotes_table ++ j)
          ≡ (if bytes_eq q.body.rfq_tx_hash j then some row else view c.db (quotes_table ++ j))

  existing_quotes-answer :
      (o : Option Bytes)
      → existing_quotes d encode decode_quotes hash (answer o) ≡ quotes_in decode_quotes o
  existing_quotes-answer none = refl
  existing_quotes-answer (some b) = refl

  write_quote-known :
      (q : Quote) (qs : List Quote) (b : Bytes) (c : Chain S)
      → existing_quotes d encode decode_quotes hash
          ((new_table d quotes_table).get c.db q.body.rfq_tx_hash)
        ≡ some qs
      → encode (list_of (map quote_item (qs ++ q ∷ []))) ≡ some b
      → (write_rfq_txs d encode decode_quotes hash (quote_tx q) c).0
        ≡ (put_in d encode decode_quotes hash quotes_table q.body.rfq_tx_hash b c).0
  unfolding write_rfq_txs write_quote
  write_quote-known q qs b c e f = rw (e, write_quote) (rw f refl)

  write_quote-Recorded :
      (q : Quote) (qs : List Quote) (c : Chain S)
      → IsOpen c.db
      → quotes_in decode_quotes (view c.db (quotes_table ++ q.body.rfq_tx_hash)) ≡ some qs
      → Recorded q qs c (write_rfq_txs d encode decode_quotes hash (quote_tx q) c).0
  write_quote-Recorded q qs c opened existing =
      let table = new_table-IsKeyValue laws quotes_table in
      let key = q.body.rfq_tx_hash in
      let (b, e) = encodes (list_of (map quote_item (qs ++ q ∷ []))) in
      let known =
        ap (existing_quotes d encode decode_quotes hash) (table.get_view c.db key opened)
        ∙ existing_quotes-answer (view c.db (quotes_table ++ key))
        ∙ existing in
      record {
        db = _;
        only = write_quote-known q qs b c known e;
        open_db = table.put_open c.db key b opened;
        row = b;
        encoded = e;
        rows = λ j. table.put_view c.db key b j opened;
      }

  -- A quote of the body `b` that was accepted for the auction `a`: the transaction has its signature.
  pub record Accepted (b : QuoteBody) (q : QuoteData) (qs : List Quote) (a : Auction)
      (sig : Signature) (relay after : Relay S) : Type 0 where
    pub valid : IsValid laws encodes decode_quotes hash after.chain
    pub still : get_open_rfq_by_hash q.rfq_tx_hash after.chain ≡ ok a
    pub in_auction :
        (after.chain.objects a.at).quotes
        ≡ (relay.chain.objects a.at).quotes ++ new_quote (hex_to_address b.from) q ∷ []
    pub queue : after.chain.auction_queue ≡ relay.chain.auction_queue
    pub pooled :
        after.to_pool
        ≡ relay.to_pool ++ quote (with_values (new_quote (hex_to_address b.from) q) sig) ∷ []
    pub row : Bytes
    pub encoded :
        encode (
          list_of
            (map quote_item (qs ++ with_values (new_quote (hex_to_address b.from) q) sig ∷ [])))
        ≡ some row
    pub stored : view after.chain.db (quotes_table ++ q.rfq_tx_hash) ≡ some row

  pub accept_quote-Accepted :
      (b : QuoteBody) (q : QuoteData) (qs : List Quote) (a : Auction) (sig : Signature)
      (relay : Relay S)
      → IsValid laws encodes decode_quotes hash relay.chain
      → get_open_rfq_by_hash q.rfq_tx_hash relay.chain ≡ ok a
      → quotes_in decode_quotes (view relay.chain.db (quotes_table ++ q.rfq_tx_hash)) ≡ some qs
      → Accepted b q qs a sig relay (
          accept_quote d encode decode_quotes hash
            (record { inner = quote (with_values (new_quote (hex_to_address b.from) q) sig) })
            (new_quote (hex_to_address b.from) q)
            relay)
  unfolding accept_quote submit tx_of get_open_rfq_by_hash
  accept_quote-Accepted b q qs a sig relay valid found existing =
      let signed = with_values (new_quote (hex_to_address b.from) q) sig in
      let recorded = write_quote-Recorded signed qs relay.chain valid.open_db existing in
      let c : Chain S = record (relay.chain) { db = recorded.db } in
      let valid' : IsValid laws encodes decode_quotes hash c = record {
        open_db = recorded.open_db;
        heap = valid.heap;
        fits = valid.fits;
      } in
      let lookup_a = get_open_rfq_by_hash-ok q.rfq_tx_hash relay.chain a found in
      let update =
        update_active_rfq-found q.rfq_tx_hash (new_quote (hex_to_address b.from) q) c a lookup_a in
      rw (recorded.only) (
        rw update (record {
          valid =
              quoted-IsValid laws encodes decode_quotes hash a (new_quote (hex_to_address b.from) q)
                c valid';
          still = rw (lookup_a, get_open_rfq_by_hash) refl;
          in_auction = ground arith;
          queue = refl;
          pooled = refl;
          row = recorded.row;
          encoded = recorded.encoded;
          stored = recorded.rows q.rfq_tx_hash ∙ rw (bytes_eq_refl q.rfq_tx_hash) refl;
        }))
