-- ===== src/Explain/Services.antt =====
-- The names of common ports (backend/internal/db/services.go).
use pmacct_suricata_analyzer.Prelude.{ℕ, List, [], ◌∷◌, String, if◌then◌else◌}
use pmacct_suricata_analyzer.Prelude.Int.{ℤ, pos, eqb_ℤ}

abbrev pub well_known_ports : List (ℕ × String)
well_known_ports =
    (20, "ftp-data")
    ∷ (21, "ftp")
    ∷ (22, "ssh")
    ∷ (23, "telnet")
    ∷ (25, "smtp")
    ∷ (53, "dns")
    ∷ (67, "dhcp")
    ∷ (68, "dhcp")
    ∷ (69, "tftp")
    ∷ (80, "http")
    ∷ (110, "pop3")
    ∷ (123, "ntp")
    ∷ (137, "netbios")
    ∷ (138, "netbios")
    ∷ (139, "netbios")
    ∷ (143, "imap")
    ∷ (161, "snmp")
    ∷ (162, "snmp-trap")
    ∷ (179, "bgp")
    ∷ (389, "ldap")
    ∷ (443, "https")
    ∷ (445, "smb")
    ∷ (465, "smtps")
    ∷ (500, "isakmp")
    ∷ (514, "syslog")
    ∷ (515, "lpd")
    ∷ (548, "afp")
    ∷ (587, "submission")
    ∷ (631, "ipp")
    ∷ (636, "ldaps")
    ∷ (853, "dns-over-tls")
    ∷ (873, "rsync")
    ∷ (989, "ftps")
    ∷ (990, "ftps")
    ∷ (993, "imaps")
    ∷ (995, "pop3s")
    ∷ (1194, "openvpn")
    ∷ (1433, "mssql")
    ∷ (1521, "oracle")
    ∷ (1701, "l2tp")
    ∷ (1723, "pptp")
    ∷ (1883, "mqtt")
    ∷ (1900, "ssdp")
    ∷ (2049, "nfs")
    ∷ (2375, "docker")
    ∷ (3000, "grafana")
    ∷ (3306, "mysql")
    ∷ (3389, "rdp")
    ∷ (3478, "stun")
    ∷ (4500, "ipsec-nat")
    ∷ (5000, "upnp")
    ∷ (5060, "sip")
    ∷ (5061, "sips")
    ∷ (5222, "xmpp")
    ∷ (5353, "mdns")
    ∷ (5432, "postgres")
    ∷ (5900, "vnc")
    ∷ (6379, "redis")
    ∷ (6881, "bittorrent")
    ∷ (8080, "http-alt")
    ∷ (8443, "https-alt")
    ∷ (8883, "mqtts")
    ∷ (9000, "php-fpm")
    ∷ (9090, "prometheus")
    ∷ (9100, "node-exporter")
    ∷ (27017, "mongodb")
    ∷ (32400, "plex")
    ∷ (51820, "wireguard")
    ∷ []

unfoldable pub port_name : ℤ → List (ℕ × String) → String
port_name port [] = ""
port_name port ((n, name) ∷ others) =
    let later = port_name port others in if eqb_ℤ port (pos n) then name else later

unfoldable pub service_name : ℤ → String
unfolding port_name
service_name port = port_name port well_known_ports
