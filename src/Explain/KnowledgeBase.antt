-- ===== src/Explain/KnowledgeBase.antt =====
-- The built-in knowledge base of programs (backend/internal/explain/known.go).
use pmacct_suricata_analyzer.Prelude.{
  ◌||◌, List, [], ◌∷◌, String, Option, none, some, any, str_eq, trim_space, if◌then◌else◌,
}
use pmacct_suricata_analyzer.Prelude.Search.{replace_char, path_base, trim_suffix}
use pmacct_suricata_analyzer.Explain.Types.{Known, Style}

pub record KbEntry : Type 0 where
  pub names : List String
  pub known : Known

abbrev pub entry : List String → String → String → String → String → List String → String → KbEntry
entry names title category description expected verify risk = record {
  names = names;
  known = record {
    title = title;
    category = category;
    description = description;
    expected = expected;
    verify = verify;
    risk = risk;
  };
}

abbrev pub kb : List KbEntry
kb =
    entry
      ("chrome" ∷ "chromium" ∷ "chromium-browser" ∷ "google chrome" ∷ "brave" ∷ "brave-browser"
        ∷ "firefox" ∷ "firefox-bin" ∷ "msedge" ∷ "microsoft edge" ∷ "opera" ∷ "vivaldi" ∷ "safari"
        ∷ "librewolf" ∷ [])
      "Web browser" "browser"
      "Destinations reflect what the user browses plus the browser's own services (sync, safe-browsing, updates, telemetry)."
      "CDNs (Cloudflare, Fastly, Akamai), Google/Microsoft/Mozilla services, ad and analytics networks, any site the user visits."
      [] ""
    ∷ entry ("pasta" ∷ "pasta.avx2" ∷ "passt" ∷ "passt.avx2" ∷ "slirp4netns" ∷ "rootlessport" ∷ [])
        "User-mode network stack for rootless containers (passt/pasta)" "container-networking"
        "pasta ships with passt and is the default network stack for rootless Podman since 5.0 (it replaced slirp4netns). When a rootless container makes an outbound connection, pasta is the process that opens the socket on the host, so the connection appears to come from pasta rather than from the process inside the container. The .avx2 suffix is just the build optimised for CPUs with AVX2."
        "Whatever the containers behind it do: image pulls (registries behind Cloudflare/Fastly), package updates, application traffic. The container column names the container when the agent could match the destination against the container's own socket table."
        ("podman ps --all" ∷ "systemctl --user list-units 'podman*'"
          ∷ "podman exec <container> ss -tn" ∷ [])
        ""
    ∷ entry
        ("podman" ∷ "docker" ∷ "dockerd" ∷ "containerd" ∷ "conmon" ∷ "crun" ∷ "runc" ∷ "buildah"
          ∷ "skopeo" ∷ [])
        "Container runtime / tooling" "container-runtime"
        "Pulls images and talks to registries; the containers' own traffic shows under their processes or the pasta/slirp proxy."
        "docker.io / registry-1.docker.io (Cloudflare), quay.io, ghcr.io (Fastly/GitHub), gcr.io, mirrors."
        [] ""
    ∷ entry
        ("systemd-resolved" ∷ "systemd-resolve" ∷ "systemd-timesyncd" ∷ "networkmanager"
          ∷ "dhclient" ∷ "dhcpcd" ∷ "avahi-daemon" ∷ "chronyd" ∷ "ntpd" ∷ "wpa_supplicant"
          ∷ "unbound" ∷ "dnsmasq" ∷ [])
        "System networking service" "system" "Name resolution, time sync or link management."
        "DNS resolvers on 53/853, NTP servers on 123, the local gateway." [] ""
    ∷ entry
        ("snapd" ∷ "apt" ∷ "apt-get" ∷ "aptd" ∷ "dpkg" ∷ "packagekitd" ∷ "unattended-upgr"
          ∷ "unattended-upgrade" ∷ "dnf" ∷ "yum" ∷ "zypper" ∷ "pacman" ∷ "flatpak" ∷ "fwupd"
          ∷ "fwupdmgr" ∷ "pip" ∷ "pip3" ∷ "cargo" ∷ "npm" ∷ "go" ∷ [])
        "Package / update manager" "updater" "Fetches package metadata and downloads."
        "Distribution mirrors and CDNs (Canonical/Fastly/Akamai), registries such as crates.io, npmjs (Cloudflare), pypi (Fastly), proxy.golang.org (Google)."
        [] ""
    ∷ entry ("steam" ∷ "steamwebhelper" ∷ "steam.exe" ∷ "steamservice" ∷ "steamservice.exe" ∷ [])
        "Steam client" "gaming" "Valve's store/launcher with an embedded browser (steamwebhelper)."
        "Valve (AS32590), Akamai/Cloudflare CDNs for content, LAN discovery of media devices (e.g. Chromecast on 8009)."
        [] ""
    ∷ entry
        ("discord" ∷ "spotify" ∷ "slack" ∷ "teams" ∷ "ms-teams" ∷ "zoom" ∷ "telegram"
          ∷ "telegram-desktop" ∷ "signal-desktop" ∷ "whatsapp" ∷ "element-desktop" ∷ [])
        "Messaging / media application" "communication"
        "Persistent connections to the vendor's realtime services and CDNs."
        "Vendor infrastructure (often on Cloudflare, Google Cloud or AWS), media CDNs." [] ""
    ∷ entry
        ("code" ∷ "code.exe" ∷ "code - insiders" ∷ "codium" ∷ "cursor" ∷ "claude" ∷ "claude.exe"
          ∷ "idea" ∷ "pycharm" ∷ "goland" ∷ "rust-analyzer" ∷ "gopls" ∷ "copilot" ∷ [])
        "Developer tool / assistant" "devtools"
        "Editors, language servers and AI assistants call their vendor APIs and extension marketplaces."
        "Microsoft/GitHub (marketplace, Copilot), Anthropic API (AS399358, api.anthropic.com), JetBrains, package registries."
        [] ""
    ∷ entry
        ("ssh" ∷ "sshd" ∷ "scp" ∷ "sftp" ∷ "rsync" ∷ "git" ∷ "git-remote-https" ∷ "curl" ∷ "wget"
          ∷ "aria2c" ∷ [])
        "Manual network tool" "tooling"
        "Driven by a user or a script; the destination is whatever was asked for."
        "Anything — judge by the destination and by who ran it." [] ""
    ∷ entry
        ("python" ∷ "python3" ∷ "python3.12" ∷ "python3.13" ∷ "python.exe" ∷ "node" ∷ "node.exe"
          ∷ "java" ∷ "javaw" ∷ "java.exe" ∷ "ruby" ∷ "perl" ∷ "php" ∷ "deno" ∷ "bun" ∷ "dotnet"
          ∷ [])
        "Interpreter / runtime" "runtime"
        "The program's identity is the script it runs, not the interpreter."
        "Depends entirely on the script; enable command-line reporting (--send-cmdline) to see it."
        [] "interpreter"
    ∷ entry ("svchost" ∷ "svchost.exe" ∷ []) "Windows service host" "windows-system"
        "Hosts many Windows services (Windows Update, BITS, Delivery Optimization, time, diagnostics…). Which service is talking needs the service name."
        "Microsoft (AS8075), Akamai/Edgecast/Level3 CDNs for updates, Delivery Optimization peers on 7680."
        ("tasklist /svc /fi \"pid eq <pid>\"" ∷ []) ""
    ∷ entry
        ("msmpeng" ∷ "msmpeng.exe" ∷ "mpcmdrun" ∷ "mpcmdrun.exe" ∷ "smartscreen" ∷ "smartscreen.exe"
          ∷ "securityhealthservice" ∷ [])
        "Microsoft Defender / SmartScreen" "windows-system"
        "Signature updates and cloud protection lookups."
        "Microsoft (AS8075) — wdcp.microsoft.com, *.update.microsoft.com." [] ""
    ∷ entry
        ("onedrive" ∷ "onedrive.exe" ∷ "outlook" ∷ "outlook.exe" ∷ "winword" ∷ "excel" ∷ "powerpnt"
          ∷ "officeclicktorun" ∷ "officeclicktorun.exe" ∷ "msedgewebview2" ∷ "msedgewebview2.exe"
          ∷ "searchhost" ∷ "searchhost.exe" ∷ "widgetservice" ∷ "widgetservice.exe"
          ∷ "runtimebroker" ∷ "runtimebroker.exe" ∷ "backgroundtaskhost" ∷ "backgroundtaskhost.exe"
          ∷ "explorer" ∷ "explorer.exe" ∷ "compattelrunner" ∷ "compattelrunner.exe"
          ∷ "mousocoreworker" ∷ "mousocoreworker.exe" ∷ "usoclient" ∷ "usoclient.exe" ∷ "sihclient"
          ∷ "sihclient.exe" ∷ "wsl" ∷ "wslhost" ∷ "wslhost.exe" ∷ "dashost" ∷ "dashost.exe"
          ∷ "yourphone" ∷ "phoneexperiencehost" ∷ [])
        "Windows / Microsoft 365 component" "windows-system"
        "Built-in Windows or Office component with cloud connectivity (sync, updates, telemetry, web content)."
        "Microsoft (AS8075, Azure), Akamai." [] ""
    ∷ entry
        ("lsass" ∷ "lsass.exe" ∷ "winlogon" ∷ "winlogon.exe" ∷ "csrss" ∷ "csrss.exe" ∷ "services"
          ∷ "services.exe" ∷ "smss" ∷ "smss.exe" ∷ "wininit" ∷ "wininit.exe" ∷ [])
        "Core Windows process that should not make outbound connections" "windows-core"
        "These processes never initiate internet connections themselves (lsass may talk to domain controllers on a LAN). Outbound connections from them indicate injection or a spoofed name."
        "None beyond domain controllers on the LAN." [] "no-network"
    ∷ entry
        ("powershell" ∷ "powershell.exe" ∷ "pwsh" ∷ "pwsh.exe" ∷ "cmd" ∷ "cmd.exe" ∷ "wscript"
          ∷ "wscript.exe" ∷ "cscript" ∷ "cscript.exe" ∷ "mshta" ∷ "mshta.exe" ∷ "rundll32"
          ∷ "rundll32.exe" ∷ "regsvr32" ∷ "regsvr32.exe" ∷ "certutil" ∷ "certutil.exe" ∷ "bitsadmin"
          ∷ "bitsadmin.exe" ∷ "msiexec" ∷ "msiexec.exe" ∷ "wmic" ∷ "wmic.exe" ∷ [])
        "Scriptable system utility (living-off-the-land binary)" "windows-lolbin"
        "Legitimate admin tools that malware commonly abuses to download or run payloads. Legitimate use exists (updates, installers, admin scripts)."
        "Microsoft endpoints for legitimate use; anything else deserves a look — check the command line and parent."
        ("Get-CimInstance Win32_Process -Filter \"ProcessId = <pid>\" | Select CommandLine, ParentProcessId"
          ∷ [])
        "lolbin"
    ∷ entry
        ("tailscaled" ∷ "tailscale" ∷ "wireguard" ∷ "wg" ∷ "openvpn" ∷ "nordvpn" ∷ "protonvpn"
          ∷ "mullvad" ∷ "zerotier-one" ∷ "cloudflared" ∷ "warp-svc" ∷ [])
        "VPN / overlay network client" "vpn"
        "Encrypted tunnel to the provider's relays or peers; other programs' traffic is hidden inside it."
        "The provider's coordination servers and relays (often on hosting/cloud networks), UDP high ports."
        [] ""
    ∷ entry
        ("kodi" ∷ "plex" ∷ "plex media server" ∷ "jellyfin" ∷ "vlc" ∷ "mpv" ∷ "youtube" ∷ "netflix"
          ∷ [])
        "Media player / server" "media" "Streams or serves media; metadata lookups to vendor APIs."
        "Media CDNs, TheMovieDB/TVDB, vendor relay services." [] ""
    ∷ entry
        ("nextcloud" ∷ "syncthing" ∷ "dropbox" ∷ "megasync" ∷ "rclone" ∷ "restic" ∷ "borg"
          ∷ "duplicati" ∷ [])
        "Sync / backup client" "sync" "Transfers files to a server or peers on a schedule."
        "The configured server or storage provider; Syncthing relays/discovery." [] ""
    ∷ entry ("server" ∷ []) "Generic name — identify by path" "unknown"
        "The process is called just \"server\"; the path, hash and container tell you which one."
        "Depends on the software." [] ""
    ∷ []

unfoldable pub find_entry : String → List KbEntry → Option Known
find_entry variant [] = none
find_entry variant (e ∷ es) =
    let later = find_entry variant es in
    if any (λ n. str_eq n variant) e.names then some e.known else later

abbrev pub first_of {ℓ} : {A : Type ℓ} → Option A → Option A → Option A
first_of none b = b
first_of (some a) b = some a

-- A name is looked up as it is, then without ".exe".
abbrev pub find_variants : String → Option Known
find_variants c =
    if str_eq c "" || str_eq c "."
    then none
    else first_of (find_entry c kb) (find_entry (trim_suffix c ".exe") kb)

-- `Lookup`: by the name, then by the file's name.
unfoldable pub lookup_known : Style → String → String → Option Known
unfolding find_entry
lookup_known style name exe =
    first_of (find_variants (style.to_lower (trim_space name)))
      (find_variants (style.to_lower (path_base (replace_char b'\\' "/" exe))))
