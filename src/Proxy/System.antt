-- ===== src/Proxy/System.antt =====
-- Any number of requests at once, of src/proxy.rs `forward_to_upstream`: each is a task that moves
-- from step to step, and the steps of different tasks come in any order. A step is the code
-- between two waits. A task may be dropped at any wait, when its client goes away.
pub mod Joining
pub mod Moving
pub mod Flights
pub mod Safety
use shadowstep.Prelude.{ℕ, suc, ◌≡◌, Bool, List, [], ◌∷◌, ◌++◌, Option, none, some, ◌>>=◌}
use shadowstep.Text.{Bytes}
use shadowstep.Run.{Run, done, panic}
use shadowstep.Time.{Instant, Duration, SystemTime}
use shadowstep.Text.{Text}
use shadowstep.Http.{Http}
use shadowstep.Prometheus.{Prometheus}
use shadowstep.Watch.{Watch}
use shadowstep.Coalesce.{FlightGuard, default}
use shadowstep.Metrics
use shadowstep.Forwarded.{Request}
use shadowstep.Cache.Policy.{RequestPolicy}
use shadowstep.Cache.Response.{FlightKey, PrimaryKey, Index, Key, Entry, FilePath}
use shadowstep.Cache.Store.{
  Clock, Caches, Store, new, insert_asset, entry_count, weighted_size, drop_refresh,
}
use shadowstep.Proxy.Headers.{Upstream, Builder}
use shadowstep.Proxy.Tee.{Item}
use shadowstep.Proxy.Answer.{Response}
use shadowstep.Proxy.Serving.{World, Refresh, Collecting, collected, FlightKey-discrete}
use shadowstep.Proxy.Waiting.{
  ToOrigin, Before, answered, origin, Progress, settled, waiting, serve_from_cache, after_wait,
  drop_flight,
}
use shadowstep.Proxy.Payload.{Payload}
use shadowstep.Proxy.Streaming.{Streaming, poll_stream, drop_stream}
use shadowstep.Proxy.Forward.{
  Sending, Reply, Departure, depart, refused, sent, came_back, observed, refresh_came_back,
}

module _ ⦃http : Http⦄ ⦃caches : Caches⦄ ⦃prometheus : Prometheus⦄ ⦃watch : Watch⦄ where
  open caches use {entries as E, index as I}

  -- A request that waits for the first item of its client's body.
  pub record Leaving : Type 0 where
    pub req : Request
    pub cache_key : PrimaryKey
    pub policy : RequestPolicy
    pub to_origin : ToOrigin

  -- A request that has not yet its response or that still streams it, or a background revalidation
  -- that waits for the origin's body. A request that waits for a leader holds nothing, and is no
  -- task.
  pub data Task : Type 0 where
    leaving : Leaving → Task
    sending : Sending → Task
    streaming : Streaming → Task
    collecting : Collecting → Task

  -- The flight that a task leads.
  unfoldable pub flight_of : Task → Option (FlightGuard FlightKey)
  flight_of (leaving l) = l.to_origin.flight
  flight_of (sending s) = s.flight
  flight_of (streaming s) = s.holding >>= λ h. h.flight
  flight_of (collecting c) = none

  -- A task is dropped.
  unfoldable pub abandon : World → Task → World
  unfolding drop_flight drop_stream
  abandon w (leaving l) = drop_flight w l.to_origin.flight
  abandon w (sending s) = drop_flight w s.flight
  abandon w (streaming s) = drop_stream w s
  abandon w (collecting c) = record w { cache = drop_refresh w.cache c.task.guard }

  -- What other parts of the program do with the store, and what moka does on its own.
  pub data Elsewhere : Store → Store → Type 1 where
    asset_inserted :
        {s : Store} (clock : Clock) (path : FilePath) (content : Bytes) (etag : Text)
        (modified : SystemTime)
        → Elsewhere s (insert_asset clock s path content etag modified).1
    counted : {s : Store} (clock : Clock) → Elsewhere s (entry_count clock s).1
    weighed : {s : Store} (clock : Clock) → Elsewhere s (weighted_size clock s).1
    evicted :
        {s : Store} (entries : E.Cache) (index : I.Cache)
        → ((now : Instant) (k : Key) (e : Entry)
            → E.get now entries k ≡ some e
            → E.get now s.entries k ≡ some e)
        → ((now : Instant) (p : PrimaryKey) (x : Index)
            → I.get now index p ≡ some x
            → I.get now s.index p ≡ some x)
        → Elsewhere s (record s { entries = entries; index = index })

  -- A request whose response is there is counted, and another goes on as a task.
  abbrev pub answered_world : World → RequestPolicy → Before → World
  answered_world w policy (answered response) = observed w policy response
  answered_world w policy (origin to_origin) = w

  abbrev pub left : Request → PrimaryKey → RequestPolicy → Before → List Task
  left req cache_key policy (answered response) = []
  left req cache_key policy (origin to_origin) =
      leaving (record { req = req; cache_key = cache_key; policy = policy; to_origin = to_origin })
      ∷ []

  abbrev pub departed_world : World → RequestPolicy → Departure → World
  departed_world w policy (refused response) = observed w policy response
  departed_world w policy (sent s) = w

  abbrev pub on_its_way : Departure → List Task
  on_its_way (refused response) = []
  on_its_way (sent s) = sending s ∷ []

  abbrev pub returned_world : World → RequestPolicy → Run Response → World
  returned_world w policy (done response) = observed w policy response
  returned_world w policy panic = w

  abbrev pub streamed : Option Streaming → List Task
  streamed none = []
  streamed (some s) = streaming s ∷ []

  abbrev pub collected_later : Option Collecting → List Task
  collected_later none = []
  collected_later (some c) = collecting c ∷ []

  module _ (upstream : Upstream) (builds : Builder → Bool) where
    -- The worlds and tasks that requests lead to.
    pub data Reached : World → List Task → Type 1 where
      started :
          (size_mb : ℕ) (ttl : Duration)
          → Reached
              (record {
                cache = new size_mb ttl;
                metrics = Metrics.new;
                flights = default FlightKey-discrete;
                refreshes = [];
              })
              []
      -- a request comes, and `serve_from_cache` does not wait
      arrived :
          {w w' : World} {tasks : List Task} (clock : Clock) (req : Request)
          (cache_key : PrimaryKey) (policy : RequestPolicy) (b : Before)
          → serve_from_cache clock w req upstream cache_key policy ≡ done (settled b, w')
          → Reached w tasks
          → Reached (answered_world w' policy b) (left req cache_key policy b ++ tasks)
      -- a request comes, and waits for a leader
      queued :
          {w w' : World} {tasks : List Task} (clock : Clock) (req : Request)
          (cache_key : PrimaryKey) (policy : RequestPolicy) (waiter : ℕ)
          → serve_from_cache clock w req upstream cache_key policy ≡ done (waiting waiter, w')
          → Reached w tasks
          → Reached w' tasks
      -- a request has waited for its leader, or as long as it may
      woken :
          {w w' : World} {tasks : List Task} (clock : Clock) (req : Request)
          (cache_key : PrimaryKey) (policy : RequestPolicy) (b : Before)
          → after_wait clock w req upstream cache_key policy ≡ done (b, w')
          → Reached w tasks
          → Reached (answered_world w' policy b) (left req cache_key policy b ++ tasks)
      departed :
          {w : World} (before after : List Task) (l : Leaving) (payload : Payload) (d : Departure)
          (w' : World)
          → depart builds w l.req upstream l.cache_key l.policy l.to_origin payload ≡ (d, w')
          → Reached w (before ++ leaving l ∷ after)
          → Reached (departed_world w' l.policy d) (before ++ (on_its_way d ++ after))
      returned :
          {w : World} (before after : List Task) (s : Sending) (clock : Clock) (elapsed : Duration)
          (reply : Reply) (response : Run Response) (stream : Option Streaming) (w' : World)
          → came_back clock w s elapsed reply ≡ (response, stream, w')
          → Reached w (before ++ sending s ∷ after)
          → Reached
              (returned_world w' s.exchange.request_policy response)
              (before ++ (streamed stream ++ after))
      polled :
          {w : World} (before after : List Task) (s s' : Streaming) (clock : Clock) (item : Item)
          (w' : World)
          → poll_stream clock w s item ≡ (s', w')
          → Reached w (before ++ streaming s ∷ after)
          → Reached w' (before ++ streaming s' ∷ after)
      abandoned :
          {w : World} (before after : List Task) (t : Task)
          → Reached w (before ++ t ∷ after)
          → Reached (abandon w t) (before ++ after)
      -- the origin answers a background revalidation, or fails
      refreshed :
          {w : World} {tasks : List Task} (before after : List Refresh) (task : Refresh)
          (clock : Clock) (req : Request) (elapsed : Duration) (reply : Reply)
          (c : Option Collecting) (w' : World)
          → w.refreshes ≡ before ++ task ∷ after
          → refresh_came_back clock
              (record w { refreshes = before ++ after })
              req
              task
              elapsed
              reply
            ≡ (c, w')
          → Reached w tasks
          → Reached w' (collected_later c ++ tasks)
      -- its body is there, or failed
      gathered :
          {w : World} (before after : List Task) (c : Collecting) (clock : Clock)
          (body : Option Bytes)
          → Reached w (before ++ collecting c ∷ after)
          → Reached (collected clock w c body) (before ++ after)
      moved :
          {w : World} {tasks : List Task} (cache : Store)
          → Elsewhere w.cache cache
          → Reached w tasks
          → Reached (record w { cache = cache }) tasks
