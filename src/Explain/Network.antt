-- ===== src/Explain/Network.antt =====
-- Whose network an address is on (backend/internal/explain/infra.go).
use pmacct_suricata_analyzer.Prelude.{List, [], ◌∷◌, String, any, str_eq, join, if◌then◌else◌}
use pmacct_suricata_analyzer.Prelude.Search.{contains}
use pmacct_suricata_analyzer.Explain.Types.{Infra, Style}

pub record InfraRule : Type 0 where
  pub matches : List String
  pub infra : Infra

abbrev pub a_rule : List String → String → String → String → InfraRule
a_rule matches class label note = record {
  matches = matches;
  infra = record { class = class; label = label; note = note };
}

abbrev pub infra_rules : List InfraRule
infra_rules =
    a_rule ("cloudflare" ∷ []) "cdn" "Cloudflare"
      "CDN/reverse proxy fronting a huge share of the internet — the IP alone tells you little; the hostname/SNI does."
    ∷ a_rule ("fastly" ∷ []) "cdn" "Fastly"
        "CDN used by many package registries (PyPI, GitHub content, quay.io) and sites — identify by hostname/SNI."
    ∷ a_rule ("akamai" ∷ "linode" ∷ []) "cdn" "Akamai / Linode"
        "Akamai CDN (updates, games, streaming) or Linode hosting — identify by hostname."
    ∷ a_rule
        ("edgecast" ∷ "verizon digital" ∷ "limelight" ∷ "edgio" ∷ "cdn77" ∷ "datacamp" ∷ "stackpath"
          ∷ "highwinds" ∷ "bunny" ∷ "cachefly" ∷ "gcore" ∷ "g-core" ∷ [])
        "cdn" "CDN" "Content delivery network — shared by many services."
    ∷ a_rule ("amazon" ∷ "aws" ∷ "ec2" ∷ []) "cloud" "Amazon AWS"
        "Public cloud — could be anything hosted on AWS; check the hostname/SNI and whether other hosts use it."
    ∷ a_rule ("google" ∷ []) "cloud" "Google"
        "Google services or Google Cloud tenants (8.8.8.8/8.8.4.4 are Google Public DNS)."
    ∷ a_rule ("microsoft" ∷ "azure" ∷ []) "cloud" "Microsoft / Azure"
        "Microsoft services (updates, telemetry, Office 365) or Azure tenants."
    ∷ a_rule ("apple" ∷ []) "vendor" "Apple" "Apple services (iCloud, updates, push)."
    ∷ a_rule ("anthropic" ∷ []) "vendor" "Anthropic"
        "Anthropic API (Claude) — expected for AI assistants and developer tools."
    ∷ a_rule ("valve" ∷ []) "vendor" "Valve" "Steam."
    ∷ a_rule ("meta platforms" ∷ "facebook" ∷ "instagram" ∷ "whatsapp" ∷ []) "vendor" "Meta"
        "Facebook/Instagram/WhatsApp."
    ∷ a_rule ("netflix" ∷ "spotify" ∷ "discord" ∷ "twitch" ∷ "zoom" ∷ []) "vendor"
        "Consumer service" "A well-known consumer service's own network."
    ∷ a_rule
        ("hetzner" ∷ "ovh" ∷ "digitalocean" ∷ "contabo" ∷ "vultr" ∷ "scaleway" ∷ "ionos"
          ∷ "leaseweb" ∷ "choopa" ∷ "m247" ∷ "hostinger" ∷ "namecheap" ∷ "godaddy" ∷ "psychz"
          ∷ "colocrossing" ∷ "quadranet" ∷ "servermania" ∷ "hostwinds" ∷ "hostkey" ∷ "flokinet"
          ∷ "privatelayer" ∷ "serverion" ∷ "aeza" ∷ "stark industries" ∷ "the constant" ∷ [])
        "hosting" "Hosting provider"
        "Rented servers — used by open-source mirrors, self-hosters and also by attackers. rDNS and SNI usually say which."
    ∷ a_rule ("oracle" ∷ []) "cloud" "Oracle Cloud" "Public cloud tenants."
    ∷ a_rule ("alibaba" ∷ "aliyun" ∷ "taobao" ∷ "tencent" ∷ "huawei" ∷ []) "cloud" "Chinese cloud"
        "Alibaba/Tencent/Huawei cloud tenants — common for apps and devices from Chinese vendors."
    ∷ a_rule
        ("comcast" ∷ "verizon" ∷ "at&t" ∷ "spectrum" ∷ "charter" ∷ "cox" ∷ "t-mobile" ∷ "vodafone"
          ∷ "telekom" ∷ "orange" ∷ "bt " ∷ "telefonica" ∷ "rogers" ∷ "bell canada" ∷ "telus"
          ∷ "sky uk" ∷ "virgin media" ∷ [])
        "isp" "Residential / mobile ISP"
        "A home or mobile connection — peer-to-peer traffic, remote access, or a scanner/attacker behind a consumer line."
    ∷ a_rule
        ("hurricane electric" ∷ "cogent" ∷ "lumen" ∷ "level 3" ∷ "zayo" ∷ "gtt" ∷ "telia"
          ∷ "arelion" ∷ "ntt" ∷ [])
        "transit" "Transit / backbone"
        "Backbone network — often a tenant or a CDN node, identify by hostname."
    ∷ []

abbrev other_network : Infra
other_network = record {
  class = "unknown";
  label = "Other network";
  note = "Not a network the knowledge base recognises; judge by rDNS, SNI and reputation.";
}

-- The first rule one of whose texts stands in the line.
unfoldable pub first_rule : String → List InfraRule → Infra
first_rule hay [] = other_network
first_rule hay (r ∷ rs) =
    let later = first_rule hay rs in if any (contains hay) r.matches then r.infra else later

-- `Classify`.
unfoldable pub classify : Style → String → String → String → String → Infra
unfolding first_rule
classify style org isp as_org hostname =
    let hay = style.to_lower (join " | " (org ∷ isp ∷ as_org ∷ hostname ∷ [])) in
    if str_eq hay " |  |  | "
    then record {
      class = "unknown";
      label = "Unknown";
      note = "Not enriched yet — refresh enrichment on the host page.";
    }
    else first_rule hay infra_rules
