-- ===== src/Csrf/Tests.antt =====
-- A form post from an origin that is listed.
use sase.Prelude.{◌≡◌, ◌↔◌, refl, true, false, [], ◌∷◌, none, some}
use sase.Prelude.Bytes.{bytes, beq}
use sase.Csrf.{Lib, Request, Config, served, member, is_write, middleware}
use sase.Csrf.Guard.{ShowsToken, FromOrigin, middleware-served_iff}

-- A parser that knows one address, and texts that are in lower case already.
abbrev test_lib : Lib
test_lib = record { parse_url = λ u. some (bytes "https", bytes "a.io"); to_lower = λ b. b }

abbrev test_config : Config
test_config = record {
  allowed_origins = bytes "https://a.io" ∷ [];
  skip = bytes "/enroll" ∷ [];
  secure_hint = true;
}

abbrev test_request : Request
test_request = record {
  method = bytes "POST";
  path = bytes "/sites";
  host = bytes "a.io";
  tls = true;
  cookie = some (bytes "t0");
  csrf_header = bytes "t0";
  origin = bytes "https://a.io";
  referer = [];
  forwarded_proto = [];
}

not_skipped : member test_request.path test_config.skip ≡ false
unfolding member beq
not_skipped = refl

posting : is_write test_request.method ≡ true
unfolding is_write beq
posting = refl

middleware-served_iff_example :
    (middleware test_lib test_config none test_request ≡ served none)
    ↔ (ShowsToken test_request × FromOrigin test_lib test_config test_request)
middleware-served_iff_example =
    middleware-served_iff test_lib test_config none test_request not_skipped posting
