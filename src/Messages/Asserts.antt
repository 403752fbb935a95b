-- ===== src/Messages/Asserts.antt =====
-- The request to check a set of assertions, and the reader of its assertions.
use cedar_spec.Base.{◌≡◌, ok, ◌>>=◌, ok_or}
use cedar_spec.Datatypes.Crate.{Crate}
use cedar_spec.Datatypes.Ffi.{Terms}
use cedar_spec.Messages.Terms.{Models}
use cedar_spec.Messages.Terms.Reading.{Read, read_terms, ModelsRead, read_terms-messages}
use cedar_spec.Messages.Requests.{RequestModels, CheckAssertsRequest, check_asserts_request}

module _ (r : RequestModels) {c : Crate} (m : Models c) where
  abbrev pub read_asserts : CheckAssertsRequest r m → Read (Terms c)
  read_asserts request = do asserts ← ok_or "asserts" request.asserts; read_terms m asserts.asserts

  -- Where the messages of names and entity uids are read back as they were, a reader that follows the
  -- format finds in a request to check assertions the assertions it was made of: their types, operators,
  -- extension values and fields, in their order.
  pub read_asserts-request :
      ModelsRead m
      → (asserts : Terms c) (env : r.RequestEnv)
      → read_asserts (check_asserts_request r m asserts env) ≡ ok asserts
  unfolding check_asserts_request
  read_asserts-request laws asserts env = read_terms-messages m laws asserts
