-- ===== src/Redispub/Tests.antt =====
-- Runs of redispub/publisher.go.
use gframework.Base.{◌≡◌, refl, true, none, some, List, [], ◌∷◌, pos, negsuc, ◌+ℤ◌}
use gframework.Errors.{sentinel, ok, err}
use gframework.Redispub.{
  Message, Stream, new, publish_to_topic, connected, published, messages, deadline,
}

-- A stream that refuses nothing but the topic "bad"; the state is the last batch.
abbrev stream : Stream (List Message)
stream = record {
  connect = λ n. none;
  now = λ w. pos 100;
  add_duration = λ t d. t +ℤ d;
  new_uuid = λ w. ("u", w);
  publish = λ topic msgs w. (none, msgs);
  close = λ w. (none, w);
}

runs :
    (new stream true (record { max_stream_entries = pos 9; timeout = pos 0 })
      ≡ ok (record { timeout = pos 5_000_000_000; max_len = pos 9 }))
    × (new stream true (record { max_stream_entries = negsuc 0; timeout = pos 0 })
        ≡ err (sentinel "ErrInvalidMaxStreamEntries"))
    × (publish_to_topic stream
          (record { timeout = pos 5; max_len = pos 9 })
          none
          "t"
          ("a" ∷ ("b" ∷ []))
          []
        ≡ (
          none,
          record { uuid = "u"; payload = "a"; deadline = pos 105 }
              ∷ (record { uuid = "u"; payload = "b"; deadline = pos 105 } ∷ []),
        ))
    × (publish_to_topic stream
          (record { timeout = pos 5; max_len = pos 9 })
          (some (pos 7))
          "t"
          ("a" ∷ [])
          []
        ≡ (none, record { uuid = "u"; payload = "a"; deadline = pos 7 } ∷ []))
unfolding new publish_to_topic ◌+ℤ◌ connected published messages deadline
runs = (refl, refl, refl, refl)
