-- ===== src/Xds/Client.antt =====
-- internal/pop/client.go: how a point of presence subscribes to a tenant's resources and what it makes
-- of them. A resource that does not unmarshal to the kind subscribed to is skipped; the bundle's JSON
-- is left to the policy's modules.
use sase.Prelude.{◌%◌, ◌^◌, Bool, List, [], ◌∷◌, ◌++◌, Option, none, some, if◌then◌else◌, map}
use sase.Prelude.Bytes.{Bytes}
use sase.Fw
use sase.Swg
use sase.Dlp
use sase.Xds.Resources.{
  Resource, revocation_list, swg_rule_set, site_config, fw_rule_set, dlp_rule_set, SwgRow, FwRule,
  DlpRow, SiteRow,
}
use sase.Xds.Server.{resource_name}
use sase.Xds.Requests.{DeltaRequest}

unfoldable pub subscribe_request : Bytes → Bytes → DeltaRequest
subscribe_request url tenant_id = record {
  type_url = url;
  resource_names_subscribe = resource_name tenant_id ∷ [];
}

unfoldable pub ack_request : Bytes → DeltaRequest
ack_request url = record { type_url = url; resource_names_subscribe = [] }

-- The loop of subscribeStream over the responses, each with whether its ACK could be sent: the
-- requests sent, and the resources handed to the callback.
unfoldable pub receive_all : Bytes → List (List Resource × Bool) → List DeltaRequest × List Resource
receive_all url [] = ([], [])
receive_all url ((resources, acked) ∷ responses) =
    let (sent, handed) = receive_all url responses in
    if acked then (ack_request url ∷ sent, resources ++ handed) else ([], resources)

unfoldable pub subscribe_stream :
    Bytes → Bytes → List (List Resource × Bool) → List DeltaRequest × List Resource
subscribe_stream url tenant_id responses =
    let (sent, handed) = receive_all url responses in
    (subscribe_request url tenant_id ∷ sent, handed)

unfoldable pub on_revocations : Resource → Option (List Bytes)
on_revocations (revocation_list tenant_id version jtis) = some jtis
on_revocations _ = none

unfoldable pub swg_rule_of : SwgRow → Swg.Rule
swg_rule_of r = record { id = []; kind = r.kind; pattern_text = r.pattern; action = r.action }

unfoldable pub on_swg : Resource → Option (List Swg.Rule)
on_swg (swg_rule_set tenant_id version rules) = some (map swg_rule_of rules)
on_swg _ = none

unfoldable pub fw_rule_of : FwRule → Fw.Rule
fw_rule_of r = record {
  id = [];
  priority = r.priority;
  action = r.action;
  protocol = r.protocol;
  src_cidr = r.src_cidr;
  dst_cidr = r.dst_cidr;
  dst_port_min = r.dst_port_min % 2 ^ 16;
  dst_port_max = r.dst_port_max % 2 ^ 16;
}

unfoldable pub on_fw : Resource → Option (List Fw.Rule)
on_fw (fw_rule_set tenant_id version rules) = some (map fw_rule_of rules)
on_fw _ = none

unfoldable pub dlp_rule_of : DlpRow → Dlp.Rule
dlp_rule_of r = record {
  id = [];
  name = r.name;
  match_type = r.match_type;
  pattern_text = r.pattern;
  action = r.action;
  severity = r.severity;
}

unfoldable pub on_dlp : Resource → Option (List Dlp.Rule)
on_dlp (dlp_rule_set tenant_id version rules) = some (map dlp_rule_of rules)
on_dlp _ = none

unfoldable pub on_sites : Resource → Option (List SiteRow)
on_sites (site_config tenant_id version sites) = some sites
on_sites _ = none
