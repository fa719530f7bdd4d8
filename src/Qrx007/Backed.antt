-- ===== src/Qrx007/Backed.antt =====
-- agent/adapters/qrx007/qrx007.go: a value that is reported of the node was in its answer.
use qrx_node_suite.Prelude.{
  ◌≡◌, refl, String, false, Option, none, some, List, [], ◌∷◌, ◌++◌, length, inl, inr, ◌⊎◌,
  Bool-cases,
}
use qrx_node_suite.Errors.{Result, ok, err}
use qrx_node_suite.Exec.{carry_on, ◌>>=◌}
use qrx_node_suite.QrxCli.{fields, first, str, int64_of, text}
use qrx_node_suite.QrxCli.Runner.{Config, Ran, printed, ended, call, base_args, cli_path, timeout}
use qrx_node_suite.Node.{Models, Value, NodeStatus, is_ok}
use qrx_node_suite.Node.Reports.{reported, unavail}
use qrx_node_suite.Qrx007.{Library, Session, Raw, Fields, cli}
use qrx_node_suite.Qrx007.Reports.{shapeless, node_status, status_of, get_node_status}
use qrx_node_suite.Qrx007.Answers.{
  first-Present, reported-ok, says_failed, ended-printed, Yields, bind-Yields, done-Yields, Present,
}

module _ (ms : Models) (zero_sync : ms.SyncStatus) (l : Library) (cfg : Config) where
  -- A value that is not called available, or that a field of the answer under one of these names holds.
  abbrev pub InAnswer :
      {A : Type 0} → Raw l cfg → (Raw l cfg → Option A) → List String → Value A → Type 0
  InAnswer raw f keys v =
      (is_ok v ≡ false)
      ⊎ ((m : Fields l cfg) × (fields l.json raw ≡ some m) × Present f m keys v.value)

  in_answer :
      {A : Type 0} (raw : Raw l cfg) (f : Raw l cfg → Option A) (keys : List String) (zero : A)
      (m : Fields l cfg)
      → fields l.json raw ≡ some m
      → InAnswer raw f keys (reported zero (first l.json f m keys))
  in_answer raw f keys zero m e =
      elim (Bool-cases (is_ok (reported zero (first l.json f m keys)))) [
        | inl y ↦ inr (m, e, first-Present l.json f m keys (reported-ok zero _ y))
        | inr n ↦ inl n
      ]

  -- What a status says of the node, against the answer to getnodestatus.
  pub record Backed (raw : Raw l cfg) (st : NodeStatus ms) : Type 0 where
    pub height :
        InAnswer raw l.json.int64
          ("local_height" ∷ "height" ∷ "blocks" ∷ "block_height" ∷ [])
          st.height
    pub finalized :
        InAnswer raw l.json.int64 ("finalized_height" ∷ "finalizedheight" ∷ []) st.finalized_height
    pub network : InAnswer raw (text l.json) ("network" ∷ "chain" ∷ []) st.network
    pub no_sync : is_ok st.sync ≡ false
    pub no_peers : is_ok st.peers ≡ false

  shapeless-Backed : (raw : Raw l cfg) → Backed raw (shapeless ms zero_sync l cfg)
  shapeless-Backed raw = record {
    height = inl refl;
    finalized = inl refl;
    network = inl refl;
    no_sync = refl;
    no_peers = refl;
  }

  node_status-Backed :
      (raw : Raw l cfg) (m build uptime mempool : Fields l cfg)
      → fields l.json raw ≡ some m
      → Backed raw (node_status ms zero_sync l cfg m build uptime mempool)
  unfolding node_status unavail str int64_of
  node_status-Backed raw m build uptime mempool e = record {
    height = in_answer raw l.json.int64 _ 0 m e;
    finalized = in_answer raw l.json.int64 _ 0 m e;
    network = in_answer raw (text l.json) _ "" m e;
    no_sync = refl;
    no_peers = refl;
  }

  status_of-Yields :
      (raw : Raw l cfg) (o : Option (Fields l cfg))
      → fields l.json raw ≡ o
      → Yields (status_of ms zero_sync l cfg o) (Backed raw)
  unfolding status_of
  status_of-Yields raw none e = done-Yields _ _ (shapeless-Backed raw)
  status_of-Yields raw (some m) e = bind-Yields _ _ _ λ build. bind-Yields _ _ _ λ uptime.
      bind-Yields _ _ _ λ mempool. done-Yields _ _ (node_status-Backed raw m build uptime mempool e)

  -- What a run of getnodestatus in this session comes to.
  abbrev pub status_run : Session → Ran (Raw l cfg)
  status_run s =
      l.process.run (length s.runs) (cli_path cfg) (timeout cfg)
        (base_args cfg ++ ("getnodestatus" ∷ []))

  -- A node status is returned only where qrx-cli printed an answer whose envelope does not say that the
  -- call failed. A height, a finalized height or a network that it calls available is in that answer under
  -- one of their names; a state of synchronization or of the peers is never called available.
  pub get_node_status-Backed :
      (s : Session) (st : NodeStatus ms)
      → (get_node_status ms zero_sync l cfg s).0 ≡ ok st
      → (raw : Raw l cfg) × (status_run s ≡ printed raw)
        × (says_failed (l.process.envelope raw) ≡ false)
        × Backed raw st
  unfolding get_node_status cli call ◌>>=◌
  get_node_status-Backed s st e = go (ended l.process (status_run s)) refl e
    where
      after : List (List String)
      after = (base_args cfg ++ ("getnodestatus" ∷ [])) ∷ s.runs

      go :
          (r : Result (Raw l cfg))
          → ended l.process (status_run s) ≡ r
          → (carry_on
              (λ raw. status_of ms zero_sync l cfg (fields l.json raw))
              (r, record s { runs = after })).0
            ≡ ok st
          → (raw : Raw l cfg) × (status_run s ≡ printed raw)
            × (says_failed (l.process.envelope raw) ≡ false)
            × Backed raw st
      go (err x) q h = cc
      go (ok raw) q h =
          let p = ended-printed l.process (status_run s) q in
          (
            raw,
            p.0,
            p.1,
            (status_of-Yields raw (fields l.json raw) refl).at (record s { runs = after }) st h,
          )
