-- ===== src/Itch/Market/RoundTrip/Trades.antt =====
-- What the reader of a trade of src/itch/itch.hpp gets from the 44 bytes that are sent.
use mathlib.Core.List.{append_assoc, append-nil}
use nasdaq_matching_engine.Common.{
  ℕ, ◌^◌, ◌≡◌, ◌<◌, refl, List, [], ◌∷◌, some, length, drop, take, ◌++◌, ◌+◌, ◌*◌, ◌/◌, ◌%◌, ◌∙◌,
  sym, ap, arith, take-append, drop-append,
}
use nasdaq_matching_engine.Endian.{byte, put_be32, put_be64, get_be32, get_be64}
use nasdaq_matching_engine.Endian.Layout.{concat, concat-append, char_at, put_price}
use nasdaq_matching_engine.Endian.RoundTrip.{
  length-put_be32, length-put_be64, get_be32-put_be32, get_be64-put_be64,
}
use nasdaq_matching_engine.Endian.Layout.{
  Sized, offset, drop-concat, length-concat, IsWirePrice, length-put_price, get_price-put_price,
  byte_lem,
}
use nasdaq_matching_engine.Itch.{put_header}
use nasdaq_matching_engine.Itch.HeaderTrip.{IsHeader, length-put_header, get_header-put_header}
use nasdaq_matching_engine.Itch.Market.{Trade, encode_trade, trade_size, decode_trade}

pub record IsTrade (m : Trade) : Type 0 where
  pub header_fits : IsHeader m.header
  pub order_ref_fits : m.order_ref < 2 ^ 64
  pub side_fits : m.side < 2 ^ 8
  pub shares_fits : m.shares < 2 ^ 32
  pub stock_fits : length m.stock ≡ 8
  pub price_fits : IsWirePrice m.price
  pub match_number_fits : m.match_number < 2 ^ 64

module _ (gap : List ℕ) (m : Trade) (w : IsTrade m) (four : length gap ≡ 4) where
  abbrev high : ℕ
  high = m.match_number / 2 ^ 32 % 2 ^ 32

  abbrev low : ℕ
  low = m.match_number % 2 ^ 32

  -- The fields within the size of the message: of the match number, the high half.
  abbrev trade_parts : List (List ℕ)
  trade_parts =
      (put_header b'P' m.header)
      ∷ (put_be64 m.order_ref)
      ∷ (byte m.side ∷ [])
      ∷ (put_be32 m.shares)
      ∷ (m.stock)
      ∷ (put_price m.price)
      ∷ gap
      ∷ (put_be32 high)
      ∷ []

  abbrev trade_sizes : List ℕ
  trade_sizes = 11 ∷ 8 ∷ 1 ∷ 4 ∷ 8 ∷ 4 ∷ 4 ∷ 4 ∷ []

  trade-Sized : Sized trade_sizes trade_parts
  trade-Sized = (
    length-put_header b'P' m.header,
    (
      length-put_be64 m.order_ref,
      (
        refl,
        (
          length-put_be32 m.shares,
          (w.stock_fits, (length-put_price m.price, (four, (length-put_be32 high, tt)))),
        ),
      ),
    ),
  )

  trade_at :
      (k : ℕ) → drop (offset k trade_sizes) (concat trade_parts) ≡ concat (drop k trade_parts)
  trade_at = drop-concat trade_sizes trade_parts trade-Sized

  length-trade : length (concat trade_parts) ≡ 44
  length-trade = length-concat trade_sizes trade_parts trade-Sized

  -- What `encode` writes: these fields, and behind the message the low half.
  encode_trade_lem : encode_trade gap m ≡ concat trade_parts ++ put_be32 low
  unfolding encode_trade put_be64
  encode_trade_lem =
      ap
        (λ r.
          put_header b'P' m.header
          ++ (put_be64 m.order_ref
              ++ (byte m.side
                  ∷ (put_be32 m.shares ++ (m.stock ++ (put_price m.price ++ (gap ++ r)))))))
        (append_assoc (put_be32 high) (put_be32 low) [])
      ∙ concat-append trade_parts (put_be32 low ∷ [])
      ∙ ap (λ r. concat trade_parts ++ r) (append-nil (put_be32 low))

  pub take-encode_trade : take trade_size (encode_trade gap m) ≡ concat trade_parts
  take-encode_trade =
      ap (take trade_size) encode_trade_lem
      ∙ take-append (concat trade_parts) (put_be32 low) 44 length-trade

  module _ (behind : List ℕ) where
    abbrev memory_sizes : List ℕ
    memory_sizes = 11 ∷ 8 ∷ 1 ∷ 4 ∷ 8 ∷ 4 ∷ 4 ∷ 4 ∷ length behind ∷ []

    memory-Sized : Sized memory_sizes (trade_parts ++ behind ∷ [])
    memory-Sized = (
      length-put_header b'P' m.header,
      (
        length-put_be64 m.order_ref,
        (
          refl,
          (
            length-put_be32 m.shares,
            (w.stock_fits, (length-put_price m.price, (four, (length-put_be32 high, (refl, tt))))),
          ),
        ),
      ),
    )

    memory_at : drop 40 (concat trade_parts ++ behind) ≡ put_be32 high ++ behind
    memory_at =
        ap (λ r. drop 40 (concat trade_parts ++ r)) (sym (append-nil behind))
        ∙ sym (ap (drop 40) (concat-append trade_parts (behind ∷ [])))
        ∙ drop-concat memory_sizes (trade_parts ++ behind ∷ []) memory-Sized 7
        ∙ ap (λ r. put_be32 high ++ r) (append-nil behind)

    -- The match number that is read at `p + 40`.
    match_number_at :
        get_be64 (drop 40 (concat trade_parts ++ behind)) ≡ high * 2 ^ 32 + get_be32 behind
    unfolding get_be64
    match_number_at =
        rw
          (
            memory_at,
            get_be32-put_be32 high behind (omega arith),
            drop-append (put_be32 high) behind 4 (length-put_be32 high),
          )
          refl

    -- The reader of the 44 bytes of a trade that was written, with any 4 bytes in the gap behind the
    -- price, gets all fields, but of the match number the high 32 bits only: the low ones are what
    -- stands in memory behind the payload.
    pub decode_trade-encode_trade :
        decode_trade behind (take trade_size (encode_trade gap m))
        ≡ some (record m { match_number = m.match_number / 2 ^ 32 * 2 ^ 32 + get_be32 behind })
    unfolding decode_trade char_at
    decode_trade-encode_trade =
        rw
          (
            take-encode_trade,
            match_number_at,
            length-trade,
            trade_at 1,
            trade_at 2,
            trade_at 3,
            trade_at 4,
            trade_at 5,
          )
          (ground (
            arith,
            w.match_number_fits,
            get_header-put_header b'P' m.header (concat (drop 1 trade_parts)) w.header_fits,
            get_be64-put_be64 m.order_ref (concat (drop 2 trade_parts)) w.order_ref_fits,
            byte_lem m.side w.side_fits,
            get_be32-put_be32 m.shares (concat (drop 4 trade_parts)) w.shares_fits,
            take-append m.stock (concat (drop 5 trade_parts)) 8 w.stock_fits,
            get_price-put_price m.price (concat (drop 6 trade_parts)) w.price_fits,
          ))
