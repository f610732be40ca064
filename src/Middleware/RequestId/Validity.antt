-- ===== src/Middleware/RequestId/Validity.antt =====
-- middleware/request_id.go: what the next handler can rely on.
use gframework.Base.{String, ◌≡◌, ◌≢◌, ◌⊎◌, true, false, none, some, eq_iff, arith, ◌↔◌}
use gframework.Middleware.RequestId.{
  RequestIdConfig, Exchange, missing_header, invalid_header, passed, trim_space,
  request_id_with_config,
}

module _ (cfg : RequestIdConfig) (fresh : String) (ex : Exchange) where
  -- For a request that is not skipped, the next handler runs only with an identifier that stands in
  -- the context and in the response header: the client's, trimmed, not empty and valid, or a generated
  -- one where none was sent and generation is on.
  pub request_id-IsIdentifier :
      (ex' : Exchange)
      → cfg.skipper ex.path ≡ false
      → request_id_with_config cfg fresh (λ e. e) ex ≡ passed ex'
      → (ex'.response_header ≡ ex'.request_id)
        × (((ex'.request_id ≡ some (trim_space ex.request_header))
              × (trim_space ex.request_header ≢ "")
              × (cfg.validator (trim_space ex.request_header) ≡ none))
            ⊎ ((ex'.request_id ≡ some fresh)
                × (trim_space ex.request_header ≡ "")
                × (cfg.auto_generate ≡ true)))
  unfolding request_id_with_config
  request_id-IsIdentifier ex' h e = ground (arith, eq_iff (trim_space ex.request_header) "")

  -- A request that is not skipped is refused for a missing identifier exactly when it sent none, or
  -- only spaces, and generation is off; and for an invalid one exactly when it sent one that the
  -- validator refuses.
  pub request_id-refused_iff :
      {A : Type 0} (next : Exchange → A)
      → cfg.skipper ex.path ≡ false
      → let r = request_id_with_config cfg fresh next ex in
        ((r ≡ missing_header) ↔ ((trim_space ex.request_header ≡ "") × (cfg.auto_generate ≡ false)))
        × ((r ≡ invalid_header) ↔ (
            (trim_space ex.request_header ≢ "")
            × (cfg.validator (trim_space ex.request_header) ≢ none)))
  unfolding request_id_with_config
  request_id-refused_iff next h = ground (arith, eq_iff (trim_space ex.request_header) "")
