-- ===== src/Itch/Market/RoundTrip/Stocks.antt =====
-- Reading back the messages of src/itch/itch.hpp on a stock as a whole.
use nasdaq_matching_engine.Common.{
  ℕ, ◌^◌, ◌≡◌, ◌<◌, refl, List, [], ◌∷◌, some, length, drop, arith, take-append,
}
use nasdaq_matching_engine.Endian.{byte, put_be32}
use nasdaq_matching_engine.Endian.Layout.{concat, char_at}
use nasdaq_matching_engine.Endian.RoundTrip.{length-put_be32, get_be32-put_be32}
use nasdaq_matching_engine.Endian.Layout.{Sized, offset, drop-concat, length-concat, byte_lem}
use nasdaq_matching_engine.Itch.{put_header}
use nasdaq_matching_engine.Itch.HeaderTrip.{IsHeader, length-put_header, get_header-put_header}
use nasdaq_matching_engine.Itch.Market.{
  StockDirectory, TradingAction, encode_stock_directory, encode_trading_action,
  decode_stock_directory, decode_trading_action,
}

pub record IsStockDirectory (m : StockDirectory) : Type 0 where
  pub header_fits : IsHeader m.header
  pub stock_fits : length m.stock ≡ 8
  pub market_category_fits : m.market_category < 2 ^ 8
  pub financial_status_fits : m.financial_status < 2 ^ 8
  pub round_lot_size_fits : m.round_lot_size < 2 ^ 32
  pub round_lots_only_fits : m.round_lots_only < 2 ^ 8
  pub issue_classification_fits : m.issue_classification < 2 ^ 8
  pub issue_subtype_fits : length m.issue_subtype ≡ 2
  pub authenticity_fits : m.authenticity < 2 ^ 8
  pub short_sale_threshold_fits : m.short_sale_threshold < 2 ^ 8
  pub ipo_flag_fits : m.ipo_flag < 2 ^ 8
  pub luld_tier_fits : m.luld_tier < 2 ^ 8
  pub etp_flag_fits : m.etp_flag < 2 ^ 8
  pub etp_leverage_fits : m.etp_leverage < 2 ^ 32
  pub inverse_indicator_fits : m.inverse_indicator < 2 ^ 8

module _ (m : StockDirectory) (w : IsStockDirectory m) where
  abbrev stock_directory_parts : List (List ℕ)
  stock_directory_parts =
      (put_header b'R' m.header)
      ∷ (m.stock)
      ∷ (byte m.market_category ∷ [])
      ∷ (byte m.financial_status ∷ [])
      ∷ (put_be32 m.round_lot_size)
      ∷ (byte m.round_lots_only ∷ [])
      ∷ (byte m.issue_classification ∷ [])
      ∷ (m.issue_subtype)
      ∷ (byte m.authenticity ∷ [])
      ∷ (byte m.short_sale_threshold ∷ [])
      ∷ (byte m.ipo_flag ∷ [])
      ∷ (byte m.luld_tier ∷ [])
      ∷ (byte m.etp_flag ∷ [])
      ∷ (put_be32 m.etp_leverage)
      ∷ (byte m.inverse_indicator ∷ [])
      ∷ []

  abbrev stock_directory_sizes : List ℕ
  stock_directory_sizes = 11 ∷ 8 ∷ 1 ∷ 1 ∷ 4 ∷ 1 ∷ 1 ∷ 2 ∷ 1 ∷ 1 ∷ 1 ∷ 1 ∷ 1 ∷ 4 ∷ 1 ∷ []

  stock_directory-Sized : Sized stock_directory_sizes stock_directory_parts
  stock_directory-Sized = (
    length-put_header b'R' m.header,
    (
      w.stock_fits,
      (
        refl,
        (
          refl,
          (
            length-put_be32 m.round_lot_size,
            (
              refl,
              (
                refl,
                (
                  w.issue_subtype_fits,
                  (
                    refl,
                    (refl, (refl, (refl, (refl, (length-put_be32 m.etp_leverage, (refl, tt)))))),
                  ),
                ),
              ),
            ),
          ),
        ),
      ),
    ),
  )

  stock_directory_at :
      (k : ℕ)
      → drop (offset k stock_directory_sizes) (concat stock_directory_parts)
        ≡ concat (drop k stock_directory_parts)
  stock_directory_at = drop-concat stock_directory_sizes stock_directory_parts stock_directory-Sized

  pub length-encode_stock_directory : length (encode_stock_directory m) ≡ 39
  unfolding encode_stock_directory
  length-encode_stock_directory =
      length-concat stock_directory_sizes stock_directory_parts stock_directory-Sized

  pub type-encode_stock_directory : char_at 0 (encode_stock_directory m) ≡ b'R'
  unfolding encode_stock_directory char_at put_header
  type-encode_stock_directory = refl

  pub decode_stock_directory-encode_stock_directory :
      decode_stock_directory (encode_stock_directory m) ≡ some m
  unfolding decode_stock_directory encode_stock_directory char_at
  decode_stock_directory-encode_stock_directory =
      rw
        (
          length-concat stock_directory_sizes stock_directory_parts stock_directory-Sized,
          stock_directory_at 1,
          stock_directory_at 2,
          stock_directory_at 3,
          stock_directory_at 4,
          stock_directory_at 5,
          stock_directory_at 6,
          stock_directory_at 7,
          stock_directory_at 8,
          stock_directory_at 9,
          stock_directory_at 10,
          stock_directory_at 11,
          stock_directory_at 12,
          stock_directory_at 13,
          stock_directory_at 14,
        )
        (ground (
          arith,
          get_header-put_header b'R' m.header (concat (drop 1 stock_directory_parts)) w.header_fits,
          take-append m.stock (concat (drop 2 stock_directory_parts)) 8 w.stock_fits,
          byte_lem m.market_category w.market_category_fits,
          byte_lem m.financial_status w.financial_status_fits,
          get_be32-put_be32 m.round_lot_size (concat (drop 5 stock_directory_parts))
              w.round_lot_size_fits,
          byte_lem m.round_lots_only w.round_lots_only_fits,
          byte_lem m.issue_classification w.issue_classification_fits,
          take-append m.issue_subtype (concat (drop 8 stock_directory_parts)) 2
              w.issue_subtype_fits,
          byte_lem m.authenticity w.authenticity_fits,
          byte_lem m.short_sale_threshold w.short_sale_threshold_fits,
          byte_lem m.ipo_flag w.ipo_flag_fits,
          byte_lem m.luld_tier w.luld_tier_fits,
          byte_lem m.etp_flag w.etp_flag_fits,
          get_be32-put_be32 m.etp_leverage (concat (drop 14 stock_directory_parts))
              w.etp_leverage_fits,
          byte_lem m.inverse_indicator w.inverse_indicator_fits,
        ))

pub record IsTradingAction (m : TradingAction) : Type 0 where
  pub header_fits : IsHeader m.header
  pub stock_fits : length m.stock ≡ 8
  pub trading_state_fits : m.trading_state < 2 ^ 8
  pub reserved_fits : m.reserved < 2 ^ 8
  pub reason_fits : length m.reason ≡ 4

module _ (m : TradingAction) (w : IsTradingAction m) where
  abbrev trading_action_parts : List (List ℕ)
  trading_action_parts =
      (put_header b'H' m.header)
      ∷ (m.stock)
      ∷ (byte m.trading_state ∷ [])
      ∷ (byte m.reserved ∷ [])
      ∷ (m.reason)
      ∷ []

  abbrev trading_action_sizes : List ℕ
  trading_action_sizes = 11 ∷ 8 ∷ 1 ∷ 1 ∷ 4 ∷ []

  trading_action-Sized : Sized trading_action_sizes trading_action_parts
  trading_action-Sized =
      (length-put_header b'H' m.header, (w.stock_fits, (refl, (refl, (w.reason_fits, tt)))))

  trading_action_at :
      (k : ℕ)
      → drop (offset k trading_action_sizes) (concat trading_action_parts)
        ≡ concat (drop k trading_action_parts)
  trading_action_at = drop-concat trading_action_sizes trading_action_parts trading_action-Sized

  pub length-encode_trading_action : length (encode_trading_action m) ≡ 25
  unfolding encode_trading_action
  length-encode_trading_action =
      length-concat trading_action_sizes trading_action_parts trading_action-Sized

  pub type-encode_trading_action : char_at 0 (encode_trading_action m) ≡ b'H'
  unfolding encode_trading_action char_at put_header
  type-encode_trading_action = refl

  pub decode_trading_action-encode_trading_action :
      decode_trading_action (encode_trading_action m) ≡ some m
  unfolding decode_trading_action encode_trading_action char_at
  decode_trading_action-encode_trading_action =
      rw
        (
          length-concat trading_action_sizes trading_action_parts trading_action-Sized,
          trading_action_at 1,
          trading_action_at 2,
          trading_action_at 3,
          trading_action_at 4,
        )
        (ground (
          arith,
          get_header-put_header b'H' m.header (concat (drop 1 trading_action_parts)) w.header_fits,
          take-append m.stock (concat (drop 2 trading_action_parts)) 8 w.stock_fits,
          byte_lem m.trading_state w.trading_state_fits,
          byte_lem m.reserved w.reserved_fits,
          take-append m.reason (concat (drop 5 trading_action_parts)) 4 w.reason_fits,
        ))
