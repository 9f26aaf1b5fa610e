-- ===== src/Server/Body.antt =====
-- server.go: the body of a request, by way of withMaxBody, to the decoder of handleBatch. The JSON
-- encoder and decoder and http.MaxBytesReader are parameters.
use khaos.Prelude.{ℕ, ◌<◌, ◌≤◌, ◌≡◌, GoString, List, Option, none, some, length, take}
use khaos.Prelude.Int.{ℤ, pos}
use khaos.Values.{Error}
use khaos.Result.{Result, ok, err}
use khaos.Server.Config.{ServerConfig, new_server}
use khaos.Server.Translate.{BatchRequestItem}
use khaos.Server.Handle.{Admission, admit}

-- What is read of a body: its bytes, and the error after them, where none is io.EOF.
pub record Body : Type 0 where
  pub bytes : GoString
  pub ending : Option Error

pub record Codec : Type 0 where
  pub marshal : List BatchRequestItem → GoString
  pub max_bytes_reader : (limit : ℤ) → Body → Body
  pub decode : Body → Result (List BatchRequestItem)

abbrev pub whole_body : GoString → Body
whole_body bytes = record { bytes = bytes; ending = none }

-- MaxBytesReader reads a body up to its limit, and then gives an error where there is more; Decode
-- gives back the items from their own encoding, and an error where reading fails before its end.
pub record IsCodec (codec : Codec) (items : List BatchRequestItem) : Type 0 where
  pub reads_whole :
      (limit : ℕ) (bytes : GoString)
      → length bytes ≤ limit
      → codec.max_bytes_reader (pos limit) (whole_body bytes) ≡ whole_body bytes
  pub reads_limit :
      (limit : ℕ) (bytes : GoString)
      → limit < length bytes
      → (e : Error) × (codec.max_bytes_reader (pos limit) (whole_body bytes)
          ≡ record { bytes = take limit bytes; ending = some e })
  pub decodes_marshalled : codec.decode (whole_body (codec.marshal items)) ≡ ok items
  pub decodes_no_part :
      (n : ℕ) (e : Error)
      → n < length (codec.marshal items)
      → (c : Error) × (codec.decode
            (record { bytes = take n (codec.marshal items); ending = some e })
          ≡ err c)

module _ (codec : Codec) where
  abbrev pub with_max_body {ℓ} : {A : Type ℓ} → (limit : ℤ) (next : Body → A) → Body → A
  with_max_body limit next body = next (codec.max_bytes_reader limit body)

  -- handleBatch, from its body to the start of the workers.
  unfoldable pub admit_body : Body → Admission
  admit_body body = admit (codec.decode body)

  -- The route of NewServer.
  unfoldable pub post_batch : ServerConfig → Body → Admission
  unfolding admit_body
  post_batch cfg = with_max_body (new_server cfg).http_server.max_body_bytes admit_body
