-- ===== src/Redispub.antt =====
-- redispub/publisher.go: a publisher on a Redis stream.
mod Tests
use gframework.Base.{
  ℕ, String, Bool, true, false, not, Option, none, some, List, [], ◌∷◌, ℤ, pos, ltb_ℤ, leb_ℤ,
  if◌then◌else◌,
}
use gframework.Errors.{GoError, sentinel, wrap, join, Result, ok, err}

pub record Options : Type 0 where
  pub max_stream_entries : ℤ
  pub timeout : ℤ

pub record RedisPublisher : Type 0 where
  pub timeout : ℤ
  pub max_len : ℤ

pub record Message : Type 0 where
  pub uuid : String
  pub payload : String
  pub deadline : ℤ

-- Watermill's publisher on a state `W`, with new identifiers; an instant and a duration are in
-- nanoseconds.
pub record Stream (W : Type 0) : Type 0 where
  pub connect : ℤ → Option GoError
  pub now : W → ℤ
  pub add_duration : ℤ → ℤ → ℤ
  pub new_uuid : W → String × W
  pub publish : String → List Message → W → Option GoError × W
  pub close : W → Option GoError × W

module _ {W : Type 0} (stream : Stream W) where
  unfoldable pub connected : Options → Option GoError → Result RedisPublisher
  connected opts (some e) = err (join (sentinel "ErrPublisherInitialization") e)
  connected opts none = ok (record {
    timeout = (if leb_ℤ opts.timeout (pos 0) then pos 5_000_000_000 else opts.timeout);
    max_len = opts.max_stream_entries;
  })

  unfoldable pub new : Bool → Options → Result RedisPublisher
  new has_client opts =
      if not has_client
      then err (sentinel "ErrNilRedisClient")
      else if ltb_ℤ opts.max_stream_entries (pos 0)
      then err (sentinel "ErrInvalidMaxStreamEntries")
      else connected opts (stream.connect opts.max_stream_entries)

  -- The deadline of the caller's context, or else the publisher's.
  deadline : RedisPublisher → Option ℤ → W → ℤ
  deadline p (some given) w = given
  deadline p none w = stream.add_duration (stream.now w) p.timeout

  messages : ℤ → List String → W → List Message × W
  messages limit [] w = ([], w)
  messages limit (content ∷ contents) w =
      let (uuid, w1) = stream.new_uuid w in
      let (rest, w2) = messages limit contents w1 in
      (record { uuid = uuid; payload = content; deadline = limit } ∷ rest, w2)

  published : String → Option GoError × W → Option GoError × W
  published topic (none, w) = (none, w)
  published topic (some e, w) = (some (join (wrap topic (sentinel "ErrPublishFailed")) e), w)

  pub publish_to_topic : RedisPublisher → Option ℤ → String → List String → W → Option GoError × W
  publish_to_topic p given topic contents w =
      let (msgs, w1) = messages (deadline p given w) contents w in
      published topic (stream.publish topic msgs w1)

  pub close : W → Option GoError × W
  close w = stream.close w
