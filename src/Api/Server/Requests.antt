-- ===== src/Api/Server/Requests.antt =====
-- api/server.go: the requests that handlePostRFQRequest accepts.
use rfqrelayer.Prelude.{
  ℕ, ◌≤◌, ◌≡◌, refl, ap, ◌∙◌, ◌⊎◌, inl, inr, Option, none, some, List, [], ◌∷◌, ◌++◌, arith,
  if◌then◌else◌, length, ok, Option-cases, Bytes, bytes_eq,
}
use rfqrelayer.Rfqdb.Interfaces.{Database, IsKeyValue}
use rfqrelayer.Rawdb.Table.Contract.{new_table-IsKeyValue}
use rfqrelayer.Prelude.Int.{ℤ, pos, negsuc}
use rfqrelayer.Types.Data.{
  SignableDataOf, SignableData, with_amount, hashed_data, RfqRequest, Quote, TxData, request,
  validate, new_tx, set_signature_values,
}
use rfqrelayer.Types.Items.{Item, rfq_request_item}
use rfqrelayer.Types.Signing.{passed_on}
use rfqrelayer.Types.Signing
use rfqrelayer.Crypto.Signatures.{Signature, byte_at, read_signature}
use rfqrelayer.Crypto.Signatures.RoundTrip.{sign_lem}
use rfqrelayer.Core.Auction.{Chain, request_tx, rfq_requests, put_in, write_rfq_txs}
use rfqrelayer.Core.Auction.Rounds.{IsValid}
use rfqrelayer.Network.Events.{Relay}
use rfqrelayer.Api.Server.{
  replied, status_accepted, new_rfq_request, tx_of, submit, post_data, sign_request, panicked,
  handle_post_rfq_request,
}

-- The request with the values of a signature.
abbrev pub signed_request : Bytes → SignableData → Signature → RfqRequest
signed_request from body sig = record {
  from = from;
  body = body;
  v = some sig.v;
  r = some sig.r;
  s = some sig.s;
}

ℤ-cases : (z : ℤ) → ((n : ℕ) × (z ≡ pos n)) ⊎ ((n : ℕ) × (z ≡ negsuc n))
ℤ-cases (pos n) = inl (n, refl)
ℤ-cases (negsuc n) = inr (n, refl)

-- What the node signs.
abbrev pub unsigned_request : Bytes → SignableData → RfqRequest
unsigned_request from body = record { from = from; body = body; v = some 0; r = some 0; s = some 0 }

module _ {S I : Type 0} {d : Database S I} {IsOpen : S → Type 0} {view : S → Bytes → Option Bytes}
    (laws : IsKeyValue d IsOpen view) {encode : Item → Option Bytes}
    (encodes : (x : Item) → (b : Bytes) × (encode x ≡ some b))
    (decode_quotes : Bytes → Option (List Quote)) (hash : TxData → Bytes) where
  -- The node after a request was taken in: the row of its hash is its encoding.
  pub record Submitted (t : RfqRequest) (relay after : Relay S) : Type 0 where
    pub db : S
    pub only : after.chain ≡ record (relay.chain) { db = db }
    pub valid : IsValid laws encodes decode_quotes hash after.chain
    pub pooled : after.to_pool ≡ relay.to_pool ++ request t ∷ []
    pub row : Bytes
    pub encoded : encode (rfq_request_item t) ≡ some row
    pub rows :
        (j : Bytes)
        → view db (rfq_requests ++ j) ≡ (
            if bytes_eq (hash (request t)) j
            then some row
            else view relay.chain.db (rfq_requests ++ j))

  write_request-known :
      (t : RfqRequest) (b : Bytes) (c : Chain S)
      → encode (rfq_request_item t) ≡ some b
      → (write_rfq_txs d encode decode_quotes hash (request_tx t) c).0
        ≡ (put_in d encode decode_quotes hash rfq_requests (hash (request t)) b c).0
  unfolding write_rfq_txs
  write_request-known t b c e = rw (e, write_rfq_txs) refl

  submit-Submitted :
      (t : RfqRequest) (relay : Relay S)
      → IsValid laws encodes decode_quotes hash relay.chain
      → Submitted t relay (submit d encode decode_quotes hash (request t) relay)
  unfolding submit tx_of
  submit-Submitted t relay valid =
      let table = new_table-IsKeyValue laws rfq_requests in
      let c = relay.chain in
      let key = hash (request t) in
      let (b, e) = encodes (rfq_request_item t) in
      let known = write_request-known t b c e in
      record {
        db = _;
        only = known;
        valid = rw known (record {
          open_db = table.put_open c.db key b valid.open_db;
          heap = valid.heap;
          fits = valid.fits;
        });
        pooled = refl;
        row = b;
        encoded = e;
        rows = λ j. table.put_view c.db key b j valid.open_db;
      }

  module _ (crypto_sign : Bytes → Option Bytes) (address : Bytes) where
    signed :
        (sd : SignableData) (b : Bytes)
        → crypto_sign (hash (request (unsigned_request address sd))) ≡ some b
        → length b ≡ 65
        → byte_at b 64 ≤ 1
        → Signing.sign
            (λ t. hash t.inner)
            (λ t. hash t.inner)
            crypto_sign
            (new_tx (request (new_rfq_request address sd)))
          ≡ ok (record { inner = request (signed_request address sd (read_signature b)) })
    unfolding Signing.sign new_tx set_signature_values
    signed sd b signs l id =
        let made =
          sign_lem crypto_sign (hash (request (unsigned_request address sd))) b signs l id in
        rw (made, Signing.sign) refl

    sign_request-Submitted :
        (sd : SignableData) (b : Bytes) (relay : Relay S)
        → IsValid laws encodes decode_quotes hash relay.chain
        → crypto_sign (hash (request (unsigned_request address sd))) ≡ some b
        → length b ≡ 65
        → byte_at b 64 ≤ 1
        → let t = signed_request address sd (read_signature b) in
          let r = sign_request d encode decode_quotes hash crypto_sign address sd relay in
          (r.1 ≡ replied status_accepted (request t)) × Submitted t relay r.0
    unfolding sign_request
    sign_request-Submitted sd b relay valid signs l id =
        rw (signed sd b signs l id, sign_request)
          (refl, submit-Submitted (signed_request address sd (read_signature b)) relay valid)

    post_data-hashed :
        (j : SignableDataOf ℤ) (relay : Relay S)
        → validate j ≡ none
        → post_data d encode decode_quotes hash crypto_sign address j relay ≡ elim (hashed_data j) [
          | none ↦ (relay, panicked)
          | some sd ↦ sign_request d encode decode_quotes hash crypto_sign address sd relay
        ]
    unfolding post_data
    post_data-hashed j relay good = rw (good, post_data) refl

    validate-amount :
        (j : SignableDataOf ℤ) → validate j ≡ none → (z : ℤ) × (j.base_token_amount ≡ some z)
    unfolding validate
    validate-amount j good = elim (Option-cases j.base_token_amount) [
      | inr found ↦ found
      | inl e ↦ absurd (ground arith)
    ]

    hashed_data-amount :
        (j : SignableDataOf ℤ) (z : ℤ)
        → j.base_token_amount ≡ some z
        → hashed_data j ≡ elim z [ pos n ↦ some (with_amount j (some n)) | negsuc n ↦ none ]
    unfolding hashed_data
    hashed_data-amount j z e = rw (e, hashed_data) refl

    -- handlePostRFQRequest of data that Validate accepts, on a valid chain. If the amount is negative, it
    -- panics and changes nothing. Else, if the key signs, it answers with the transaction that has the
    -- address of the node and its signature. In the table of requests the row of its hash is its
    -- encoding, and no other row and nothing else of the chain changes. The transaction is sent to the
    -- pool, and the chain stays valid.
    pub handle_post_rfq_request-Submitted :
        (from : Bytes) (j : SignableDataOf ℤ) (b : Bytes) (relay : Relay S)
        → IsValid laws encodes decode_quotes hash relay.chain
        → validate j ≡ none
        → ((n : ℕ)
            → j.base_token_amount ≡ some (pos n)
            → crypto_sign (hash (request (unsigned_request address (with_amount j (some n)))))
              ≡ some b)
        → length b ≡ 65
        → byte_at b 64 ≤ 1
        → let r =
            handle_post_rfq_request d encode decode_quotes hash crypto_sign address
              (some (record { from = from; body = some j }))
              relay in
          ((n : ℕ) × (j.base_token_amount ≡ some (negsuc n)) × (r ≡ (relay, panicked)))
          ⊎ ((n : ℕ) × (j.base_token_amount ≡ some (pos n))
              × (r.1
                  ≡ replied status_accepted (
                      request (signed_request address (with_amount j (some n)) (read_signature b))))
              × Submitted
                  (signed_request address (with_amount j (some n)) (read_signature b))
                  relay
                  r.0)
    unfolding handle_post_rfq_request
    handle_post_rfq_request-Submitted from j b relay valid good signs l id =
        let (z, e) = validate-amount j good in
        rw (post_data-hashed j relay good, hashed_data-amount j z e)
          (elim (ℤ-cases z) [
            | inr (n, negative) ↦ inl (n, e ∙ ap some negative, rw negative refl)
            | inl (n, positive) ↦
                let f = e ∙ ap some positive in
                let (answer, taken) =
                  sign_request-Submitted (with_amount j (some n)) b relay valid (signs n f) l id in
                rw positive (inr (n, f, answer, taken))
          ])
