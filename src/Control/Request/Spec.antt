-- ===== src/Control/Request/Spec.antt =====
-- The JSON values that the requests stand for: which members there are, and when.
use lando.Prelude.{
  ℕ, Bool, true, false, Option, none, some, List, [], ◌∷◌, length, ◌==◌, if◌then◌else◌, ◌++◌,
}
use lando.Prelude.Bytes.{Bytes, codes}
use lando.Prelude.Decimal.{decimal}
use lando.Key.{node, disco}
use lando.Key.RoundTrip.{key_text}
use lando.Json.Doc.{
  Doc, Members, Items, str, number, bool, object, array, no_members, member, no_items, item,
  append_members, strings,
}
use lando.Control.Request.{Hostinfo, Register, MapRequest, write_seconds}

abbrev pub number_of : ℕ → Doc
number_of v = number (decimal 20 v)

abbrev pub numbers : List ℕ → Items
numbers [] = no_items
numbers (n ∷ ns) = item (number_of n) (numbers ns)

abbrev pub only : Bytes → Doc → Members
only k d = member k d no_members

abbrev pub when : Bool → Members → Members
when b ms = if b then ms else no_members

abbrev pub unless : Bool → Members → Members
unless b ms = if b then no_members else ms

abbrev pub latency_members : ℕ → Option ℕ → Members
latency_members region none = no_members
latency_members region (some ms) =
    only (codes "DERPLatency")
      (object (only (decimal 10 region ++ codes "-v4") (number (write_seconds ms))))

abbrev pub net_info_doc : Hostinfo → Doc
net_info_doc h = object (
    member (codes "MappingVariesByDestIP") (bool false) (
      member (codes "WorkingIPv6") (bool false) (
        member (codes "OSHasIPv6") (bool false) (
          member (codes "WorkingUDP") (bool h.working_udp) (
            member (codes "HavePortMap") (bool false) (
              member (codes "UPnP") (bool false) (
                member (codes "PMP") (bool false) (
                  member (codes "PCP") (bool false) (
                    member (codes "PreferredDERP") (number_of h.preferred_derp) (
                      append_members (latency_members h.preferred_derp h.derp_latency_ms)
                        (only (codes "LinkType") (str (codes "wifi")))))))))))))

abbrev pub hostinfo_doc : Hostinfo → Doc
hostinfo_doc h = object (
    member (codes "IPNVersion") (str h.ipn_version) (
      member (codes "OS") (str h.os) (
        append_members
          (unless (length h.os_version == 0) (only (codes "OSVersion") (str h.os_version)))
          (member (codes "Hostname") (str h.hostname) (
            member (codes "Machine") (str h.machine) (
              append_members
                (unless (h.preferred_derp == 0) (only (codes "NetInfo") (net_info_doc h)))
                (append_members
                  (unless (length h.routable_ips == 0)
                    (only (codes "RoutableIPs") (array (strings h.routable_ips))))
                  no_members)))))))

abbrev pub auth_members : Option Bytes → Members
auth_members none = no_members
auth_members (some auth) = only (codes "Auth") (object (only (codes "AuthKey") (str auth)))

abbrev pub followup_members : Option Bytes → Members
followup_members none = no_members
followup_members (some url) = only (codes "Followup") (str url)

abbrev pub register_doc : Register → Doc
register_doc r = object (
    member (codes "Version") (number_of r.capability_version) (
      member (codes "NodeKey") (str (key_text node r.node_key)) (
        append_members (auth_members r.auth_key) (
          append_members (followup_members r.followup) (
            member (codes "Hostinfo") (hostinfo_doc r.hostinfo) (
              append_members (when r.ephemeral (only (codes "Ephemeral") (bool true)))
                no_members))))))

abbrev pub endpoint_members : MapRequest → Members
endpoint_members r = unless (length r.endpoints == 0) (
    member (codes "Endpoints") (array (strings r.endpoints)) (
      unless (length r.endpoint_types == 0)
        (only (codes "EndpointTypes") (array (numbers r.endpoint_types)))))

abbrev pub map_doc : MapRequest → Doc
map_doc r = object (
    member (codes "Version") (number_of r.capability_version) (
      member (codes "Compress") (str []) (
        member (codes "KeepAlive") (bool r.keep_alive) (
          member (codes "NodeKey") (str (key_text node r.node_key)) (
            member (codes "DiscoKey") (str (key_text disco r.disco_key)) (
              append_members (when r.stream (only (codes "Stream") (bool true))) (
                append_members (when r.omit_peers (only (codes "OmitPeers") (bool true))) (
                  append_members (endpoint_members r)
                    (member (codes "Hostinfo") (hostinfo_doc r.hostinfo) no_members)))))))))
