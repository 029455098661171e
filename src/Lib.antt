-- ===== src/Lib.antt =====
-- Netbuddy, a web-based administration tool for switches and firewalls: it reads what they know
-- into an inventory, and changes a few things on them. This library models the services of its
-- backend (backend/src/netbuddy/services) that change a device or decide what is changed, and the
-- parsers and keys that they rest on. Services work on database rows (db/models) and talk to a
-- device through a transport and an adapter (adapters); the routes and the workers call them.
--
-- Base: lists, text, association lists for dictionaries, and effects with exceptions. Text is a
--   list of code points; lower, upper, strip and the tests of letters and digits are those of ASCII.
--   `int` and `decimal` read and write decimal numerals.
-- Format: `str.format` with named fields.
-- Profile: the write paths of a vendor profile (adapters/profile.py).
-- Hardware: a device as the functions that answer its calls. An answer may depend on everything
--   that the device was sent before, and may be an exception; nothing else is assumed of it. The
--   list of what was sent is the state that the theorems speak of.
-- Inventory: the rows of devices, credentials and the links between them (db/models).
-- Poe: services/poe.py, services/poe_recover.py, workers/poe_worker.py, and find_poe_faults of
--   services/unifi_local.py. Parse has the parsers of the switch's tables, Port the states of a port,
--   Bounce scan_poe and recover_port, Policy recent_attempts, recover_with_policy and recover_unifi,
--   Fleet collect_stuck and recover_hits, Worker auto_recover and the job with its transaction.
-- Unifi: services/unifi_local.py: what is read of a controller (Raw), its requests and what is done
--   with several of them (Console), whole controllers and where their clients are (Clients), and the
--   ports of a switch and the VLANs of a controller (Ports). The requests so far are the state.
--   services/unifi_inventory.py: the hosts and devices of the cloud in the inventory (Import).
-- Locations: services/endpoint_location.py: the map of access points (Build), from the cloud
--   (Cloud), from what the switches see (Switches) and from the local controllers (Local), with its
--   placement (Placement), its rows (Rows, Save) and its answer (Info).
-- Vlans: services/vlan_survey.py: lists of VLANs (Range), configurations (Patterns, Config), the
--   vendors' interfaces (Apis), the aggregation and the run (Survey).
-- Adapters: adapters/converters.py (Values, Converters), mapping.py (Mapping), and declarative.py with
--   parsers.py (Declarative). ntc-templates, TextFSM and pydantic are parameters.
-- Hosts: services/hosts.py: normalize_mac and correlate_hosts.
-- Ifname: services/ifname.py: normalize_interface_name.
-- Control: services/backup.py (Backup), is_physical and enable_lldp of services/lldp_control.py
--   (Physical, Lldp) and services/port_vlan.py (PortVlan), over one state: what the switch was sent,
--   and the tables of backups and interfaces (Bench).
-- Discovery: services/discovery.py: the rows (Rows), how each read is stored (Tables, Vpn), and
--   run_discovery (Run) and run_scheduled_discovery (Scheduled). A flush is taken to succeed.
-- Crawl: services/crawl.py: the guesses (Guess, with vendor_for_mac of services/oui.py) and the
--   loop (Loop), which runs discoveries and adds their neighbours; services/sites_net.py (Sites).
--
-- A function keeps its name. Coroutines are run one after the other, so an action is a function
-- from a state to a result, or an exception, and the next state (Base.Effects); what was done
-- before an exception stays done. Loops run over lists and are structural, but for the loop of a
-- crawl, which adds to its queue while it runs: it is on fuel, and ends because no device is added
-- behind one at the greatest depth.
-- Identifiers and times are natural numbers, times in seconds.
--
-- Parameters, of which nothing is assumed: the answers of the devices, the connections, the
-- controller of UniFi switches, the DNS, the clock and the time stamps of the database, sha256,
-- `ipaddress`, the table of vendors, and `re.search` with a pattern from a profile. Queries without
-- an order give the rows in the order of their table. The session's autoflush makes added rows
-- visible to later queries.
--
-- Not modelled: the HTTP routes, the transports, the vendors' HTTP interfaces and the frontend,
-- which are input and output; the services for Cato, vCenter, storage, iLO, warranties and VPN
-- tunnels, which are clients of such interfaces; locate, suggest and fw_uplink, which only search
-- the tables that the modelled services write; onboarding and validation, which put calls of the
-- adapters together; two recoveries that run at the same time, of which each may count the attempts
-- before the other has committed its own; the texts of log entries and of `detail`.
pub mod Base
pub mod Format
pub mod Profile
pub mod Hardware
pub mod Inventory
pub mod Unifi
pub mod Locations
pub mod Vlans
pub mod Adapters
pub mod Hosts
pub mod Ifname
pub mod Control
pub mod Discovery
pub mod Poe
pub mod Crawl
