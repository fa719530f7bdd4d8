-- ===== src/Legacy006/Agreement.antt =====
-- agent/adapters/legacy006 and agent/adapters/qrx007: where the two adapters report the same.
use qrx_node_suite.Prelude.{ℕ, ◌≡◌, refl, String, [], ◌∷◌}
use qrx_node_suite.Errors.{Result, ok, err}
use qrx_node_suite.Exec.{carry_on, done, ◌>>=◌}
use qrx_node_suite.QrxCli.Runner.{Config}
use qrx_node_suite.Node.{Value}
use qrx_node_suite.Node.Reports.{BlockchainStatus}
use qrx_node_suite.Qrx007.{Library, Session, Fields, text, number, query}
use qrx_node_suite.Qrx007.Reports
use qrx_node_suite.Legacy006

-- What both report of the chain, an error as it is.
pub chain : Result BlockchainStatus × Session → Result (Value String × Value ℕ) × Session
chain (ok b, s) = (ok (b.network, b.height), s)
chain (err e, s) = (err e, s)

same_chain :
    {F : Type 0} (f g : F → BlockchainStatus) (o : Result F × Session)
    → ((m : F) → chain (ok (f m), o.1) ≡ chain (ok (g m), o.1))
    → chain (carry_on (λ m. done (f m)) o) ≡ chain (carry_on (λ m. done (g m)) o)
unfolding chain
same_chain f g (ok m, s) h = h m
same_chain f g (err e, s) h = refl

-- Over the same runs of qrx-cli, GetBlockchainInfo of the two adapters reports the same network and the
-- same height, or fails alike, and leaves the same session.
pub get_blockchain_info-agrees :
    (l : Library) (cfg : Config) (s : Session)
    → chain (Legacy006.get_blockchain_info l cfg s) ≡ chain (Reports.get_blockchain_info l cfg s)
unfolding Legacy006.get_blockchain_info Reports.get_blockchain_info chain ◌>>=◌
get_blockchain_info-agrees l cfg s =
    same_chain _
      (λ (m : Fields l cfg). record {
        network = text l cfg m ("network" ∷ "chain" ∷ []);
        height = number l cfg m ("height" ∷ "blocks" ∷ []);
        finalized_height = number l cfg m ("finalized_height" ∷ []);
        best_block_hash = text l cfg m ("bestblockhash" ∷ "best_block_hash" ∷ []);
      })
      (query l cfg "getblockchaininfo" s) (λ m. refl)
