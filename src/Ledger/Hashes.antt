-- ===== src/Ledger/Hashes.antt =====
-- What the hash of a block depends on.
use Prim.Native.String.{◌++◌ as str_append}
use threshold_sig_multiparty.Prelude.{◌≡◌, refl, ap, String, List, [], ◌∷◌, map, length, arith}
use threshold_sig_multiparty.Platform.{Platform}
use threshold_sig_multiparty.Ledger.{Transaction, Stamp, stamp_text, join, contents_text, hash_of}

abbrev printed : List Transaction → List String
printed = map (λ t. "[object Object]")

printed-length : (ts us : List Transaction) → length ts ≡ length us → printed ts ≡ printed us
printed-length [] [] h = refl
printed-length [] (u ∷ us) h = absurd (omega arith)
printed-length (t ∷ ts) [] h = absurd (omega arith)
printed-length (t ∷ ts) (u ∷ us) h =
    ap (λ r. "[object Object]" ∷ r) (printed-length ts us (omega arith))

-- The hash of a block with one list of transactions depends on the timestamp, the hash of the block
-- before it and the number of the transactions, and not on what the transactions say.
pub hash_of-transactions :
    (P : Platform) (t : Stamp) (last_hash : String) (ts us : List Transaction)
    → length ts ≡ length us
    → hash_of P t last_hash (ts ∷ []) ≡ hash_of P t last_hash (us ∷ [])
unfolding hash_of contents_text join
hash_of-transactions P t last_hash ts us h =
    ap
      (λ r. P.sha256_json (str_append (stamp_text P t) (str_append last_hash (join (join r ∷ [])))))
      (printed-length ts us h)
