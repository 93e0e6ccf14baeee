-- ===== src/Xds/Resources.antt =====
-- internal/xds/server.go: the six kinds of resources, read from the database into the caches. The
-- database's answers to the queries and the caches of go-control-plane are parameters.
use sase.Prelude.{ℕ, ◌-◌, ◌%◌, ◌^◌, Bool, List, [], ◌∷◌, ◌++◌, Option, none, some, ◌==◌}
use sase.Prelude.Bytes.{Bytes}
use sase.Prelude.Int.{ℤ, pos, negsuc}
use sase.Prelude.Result.{Result, ok, err}

-- The kinds, in the order of evictTenant.
pub data Kind : Type 0 where
  policy revocation swg site fw dlp : Kind

unfoldable pub rank : Kind → ℕ
rank policy = 0
rank revocation = 1
rank swg = 2
rank site = 3
rank fw = 4
rank dlp = 5

unfoldable pub same_kind : Kind → Kind → Bool
same_kind k j = rank k == rank j

-- The rows of the queries, as Scan fills them.
pub record SwgRow : Type 0 where
  pub kind : Bytes
  pub pattern : Bytes
  pub action : Bytes

pub record FwRow : Type 0 where
  pub priority : ℤ
  pub action : Bytes
  pub protocol : Bytes
  pub src_cidr : Bytes
  pub dst_cidr : Bytes
  pub lo : ℤ
  pub hi : ℤ

-- A rule as it is sent, with its ports as uint32.
pub record FwRule : Type 0 where
  pub priority : ℤ
  pub action : Bytes
  pub protocol : Bytes
  pub src_cidr : Bytes
  pub dst_cidr : Bytes
  pub dst_port_min : ℕ
  pub dst_port_max : ℕ

pub record DlpRow : Type 0 where
  pub name : Bytes
  pub match_type : Bytes
  pub pattern : Bytes
  pub action : Bytes
  pub severity : Bytes

pub record SiteRow : Type 0 where
  pub site_key : Bytes
  pub cidr : Bytes
  pub name : Bytes

pub record Bundle : Type 0 where
  pub compiled : Bytes
  pub version : ℕ

-- What is sent to a tenant's subscribers; a list's version is its length.
pub data Resource : Type 0 where
  policy_bundle : Bytes → ℕ → Bytes → Resource
  revocation_list : Bytes → ℕ → List Bytes → Resource
  swg_rule_set : Bytes → ℕ → List SwgRow → Resource
  site_config : Bytes → ℕ → List SiteRow → Resource
  fw_rule_set : Bytes → ℕ → List FwRule → Resource
  dlp_rule_set : Bytes → ℕ → List DlpRow → Resource

abbrev pub Error : Type 0
Error = Bytes

-- A read-only transaction: the failure to begin, what the body sees, the failure to commit.
pub record Tx (A : Type 0) : Type 0 where
  pub begin_err : Option Error
  pub seen : A
  pub commit_err : Option Error

-- The rows of a query: what Scan gives for each, and the error after the last.
pub record Rows (R : Type 0) : Type 0 where
  pub query_err : Option Error
  pub scans : List (Result Error R)
  pub rows_err : Option Error

pub data RowError : Type 0 where
  no_rows : RowError
  row_failed : Error → RowError

-- The database at one time, for each tenant.
pub record Database : Type 0 where
  pub bundles : Bytes → Tx (Result RowError Bundle)
  pub revocations : Bytes → Tx (Rows Bytes)
  pub swg_rules : Bytes → Tx (Rows SwgRow)
  pub fw_rules : Bytes → Tx (Rows FwRow)
  pub dlp_rules : Bytes → Tx (Rows DlpRow)
  pub sites : Bytes → Tx (Rows SiteRow)

unfoldable pub or_error : {A : Type 0} → Option Error → Result Error A → Result Error A
or_error none r = r
or_error (some e) r = err e

unfoldable pub and_commit : {A : Type 0} → Option Error → Result Error A → Result Error A
and_commit e (ok a) = or_error e (ok a)
and_commit e (err f) = err f

unfoldable pub in_tx_ro : {A B : Type 0} → Tx A → (A → Result Error B) → Result Error B
in_tx_ro tx body = or_error tx.begin_err (and_commit tx.commit_err (body tx.seen))

-- The loop for rows.Next(), each row made a rule by `rule_of`.
unfoldable pub scan_rows :
    {R Rule : Type 0}
    → (R → Rule)
    → List Rule
    → List (Result Error R)
    → Option Error
    → Result Error (List Rule)
scan_rows rule_of rules [] rows_err = or_error rows_err (ok rules)
scan_rows rule_of rules (err e ∷ scans) rows_err = err e
scan_rows rule_of rules (ok row ∷ scans) rows_err =
    scan_rows rule_of (rules ++ (rule_of row ∷ [])) scans rows_err

unfoldable pub read_rows : {R Rule : Type 0} → (R → Rule) → Rows R → Result Error (List Rule)
read_rows rule_of rows = or_error rows.query_err (scan_rows rule_of [] rows.scans rows.rows_err)

-- uint32(i)
unfoldable pub to_uint32 : ℤ → ℕ
to_uint32 (pos n) = n % 2 ^ 32
to_uint32 (negsuc n) = 2 ^ 32 - 1 - n % 2 ^ 32

unfoldable pub fw_rule : FwRow → FwRule
fw_rule row = record {
  priority = row.priority;
  action = row.action;
  protocol = row.protocol;
  src_cidr = row.src_cidr;
  dst_cidr = row.dst_cidr;
  dst_port_min = to_uint32 row.lo;
  dst_port_max = to_uint32 row.hi;
}

unfoldable pub read_swg : Database → Bytes → Result Error (List SwgRow)
read_swg db tenant_id = in_tx_ro (db.swg_rules tenant_id) (read_rows (λ row. row))

unfoldable pub read_fw : Database → Bytes → Result Error (List FwRule)
read_fw db tenant_id = in_tx_ro (db.fw_rules tenant_id) (read_rows fw_rule)

unfoldable pub read_dlp : Database → Bytes → Result Error (List DlpRow)
read_dlp db tenant_id = in_tx_ro (db.dlp_rules tenant_id) (read_rows (λ row. row))

unfoldable pub read_sites : Database → Bytes → Result Error (List SiteRow)
read_sites db tenant_id = in_tx_ro (db.sites tenant_id) (read_rows (λ row. row))

unfoldable pub read_revocations : Database → Bytes → Result Error (List Bytes)
read_revocations db tenant_id = in_tx_ro (db.revocations tenant_id) (read_rows (λ row. row))

unfoldable pub found : Result RowError Bundle → Result Error (Option Bundle)
found (ok bundle) = ok (some bundle)
found (err no_rows) = ok none
found (err (row_failed e)) = err e

unfoldable pub read_bundle : Database → Bytes → Result Error (Option Bundle)
read_bundle db tenant_id = in_tx_ro (db.bundles tenant_id) found
