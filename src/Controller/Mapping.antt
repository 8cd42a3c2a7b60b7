-- ===== src/Controller/Mapping.antt =====
-- src/kinda-sdn/controller/mapping.go: the model of the network in the messages of
-- src/proto/sdn/sdn.proto.
use k8s_inc.Prelude.{String, List, map, if◌then◌else◌, ℕ_eq, String_eq}
use k8s_inc.Model.Devices.{
  Device, IncSwitch, Link, inc_switch, host, net_device, external_device, get_name, get_links,
}
use k8s_inc.Model.Graph.{Topology}
use k8s_inc.Model.Program.{P4ProgramDetails}

-- the enum DeviceType of the messages
pub data ProtoType : Type 0 where
  proto_host proto_inc_switch proto_net proto_external : ProtoType

-- a link, which is its peer's name
pub record ProtoLink : Type 0 where
  pub peer_name : String

pub record ProtoDevice : Type 0 where
  pub name : String
  pub device_type : ProtoType
  pub links : List ProtoLink

pub record SwitchDetails : Type 0 where
  pub name : String
  pub arch : String
  pub installed_program : String

unfoldable pub link_to_proto : Link → ProtoLink
link_to_proto link = record { peer_name = link.to }

-- the type assertion cannot fail where the type is that of an INC switch
unfoldable pub convert_device_type : Device → ProtoType
convert_device_type (net_device b) = proto_net
convert_device_type (external_device b) = proto_external
convert_device_type (inc_switch s) =
    if s.allow_client_programmability then proto_inc_switch else proto_net
convert_device_type (host b) = proto_host

unfoldable pub device_to_proto : Device → ProtoDevice
unfolding link_to_proto convert_device_type
device_to_proto device = record {
  name = get_name device;
  device_type = convert_device_type device;
  links = map link_to_proto (get_links device);
}

unfoldable pub topology_model_to_proto : Topology → List ProtoDevice
unfolding device_to_proto
topology_model_to_proto topo = map device_to_proto topo.devices

unfoldable pub inc_switch_to_details_proto : IncSwitch → SwitchDetails
inc_switch_to_details_proto s = record {
  name = s.base.name;
  arch = s.arch;
  installed_program = s.installed_program;
}

unfoldable pub program_details_to_proto : P4ProgramDetails → List String
program_details_to_proto pd = pd.implemented_interfaces
