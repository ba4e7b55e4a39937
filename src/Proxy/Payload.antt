-- ===== src/Proxy/Payload.antt =====
-- src/proxy.rs, `request_body` and `pump_request_body`: the client's body on its way to the
-- origin, through a channel of which each send succeeds until the origin request has ended.
pub mod Laws
use shadowstep.Prelude.{
  ℕ, suc, Bool, true, false, not, Option, none, some, List, [], ◌∷◌, ◌⊎◌, inl, inr, if◌then◌else◌,
}
use shadowstep.Text.{Bytes}
use shadowstep.Http.{StatusCode}
use shadowstep.Proxy.Headers.{Builder}

-- An item of the payload's stream, and a frame of the body that the origin request reads: a
-- chunk, or an error.
pub data Item : Type 0 where
  chunk : Bytes → Item
  failed : Item

abbrev pub Payload : Type 0
Payload = List Item

-- The body of the origin request: none, or what the pump sends for a first chunk and the rest.
pub data UpstreamBody : Type 0 where
  empty_body : UpstreamBody
  pumped : Bytes → Payload → UpstreamBody

-- `request_body`, which fails with the error of the first item.
unfoldable pub request_body : Payload → Option UpstreamBody
request_body [] = some empty_body
request_body (failed ∷ rest) = none
request_body (chunk first ∷ rest) = some (pumped first rest)

-- `origin_request`: hyper refuses a builder that holds an invalid part, which `builds` tells.
unfoldable pub origin_request :
    (Builder → Bool) → Builder → Payload → StatusCode ⊎ (Builder × UpstreamBody)
unfolding request_body
origin_request builds builder payload = elim (request_body payload) [
  | none ↦ inl 400
  | some body ↦ if builds builder then inr (builder, body) else inl 500
]

module _ (sends : ℕ → Bool) where
  -- The loop of `pump_request_body`: the frames that reach the channel, of which the next is the
  -- `n`-th. `sends n` tells whether that send succeeds.
  unfoldable pub pump_rest : ℕ → Payload → List Item
  pump_rest n [] = []
  pump_rest n (chunk bytes ∷ rest) =
      let later = pump_rest (suc n) rest in if sends n then chunk bytes ∷ later else []
  pump_rest n (failed ∷ rest) = if sends n then failed ∷ [] else []

  -- `pump_request_body`.
  unfoldable pub pump_request_body : Bytes → Payload → List Item
  unfolding pump_rest
  pump_request_body first rest = if not (sends 0) then [] else chunk first ∷ pump_rest 1 rest
