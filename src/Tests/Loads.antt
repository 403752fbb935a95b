-- ===== src/Tests/Loads.antt =====
-- The theorems on the readers of files and arguments, at a system where each file holds its own name.
use Prim.Native.String.{String}
use cedar_spec.Base.{true, ℕ, ◌≡◌, ◌↔◌, inr, [], ◌∷◌, ◌++◌, none, some, ok}
use cedar_spec.Cli.Inputs.{Parsers, RequestArgsEnum, parse_request}
use cedar_spec.Cli.Inputs.Loading.{IsFileRequest, parse_request-IsFileRequest}
use cedar_spec.Tests.Samples.{sample, narrow, wide}

abbrev parsers : Parsers sample
parsers = record {
  Template = ℕ;
  Entities = ℕ;
  Expression = ℕ;
  Context = ℕ;
  Request = ℕ × ℕ × ℕ × ℕ;
  Value = String;
  read_to_string = λ fname. inr fname;
  has_json_extension = λ fname. true;
  policy_from_str = λ text. inr narrow;
  policyset_from_str = λ text. inr (narrow ∷ wide ∷ []);
  schema_from_str = λ text. inr tt;
  schema_from_json_str = λ text. inr tt;
  entities_from_json_str = λ text schema. inr 0;
  expression_from_str = λ text. inr 0;
  uid_from_str = λ text. inr 7;
  context_empty = 0;
  context_from_json_str = λ text schema. inr 1;
  request_new = λ p a r context. inr (p, a, r, context);
  value_from_str = λ text. inr text;
  get = λ v key. some key;
  as_string = λ v. some v;
  to_string = λ v. v;
  policy_annotation = λ p. some "renamed";
  policy_id = λ text. 9;
  policy_new_id = λ id p. record p { name = id };
  template_annotation = λ t. none;
  template_new_id = λ id t. id;
  templates = λ s. 5 ∷ [];
  policyset_new = [];
  add_template = λ t s. inr s;
  add = λ p s. inr (s ++ (p ∷ []));
  wrap_err = λ message e. e;
}

parse_request-IsFileRequest_example :
    (parse_request sample parsers (RequestArgsEnum.from_file "request.json") (some tt)
      ≡ ok (7, 7, 7, 1))
    ↔ IsFileRequest sample parsers "request.json" (some tt) (7, 7, 7, 1)
parse_request-IsFileRequest_example =
    parse_request-IsFileRequest sample parsers "request.json" (some tt) (7, 7, 7, 1)
