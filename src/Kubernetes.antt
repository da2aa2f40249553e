-- ===== src/Kubernetes.antt =====
-- internal/kubernetes/kubernetes.go: the client that the webhook and the plugin share. The API
-- server, which client-go calls, is a parameter.
use gopher_cni.Prelude.{
  ℕ, Bool, ◌||◌, Option, none, some, List, if◌then◌else◌, Result, ok, err, ◌>>=◌, wrap,
}
use gopher_cni.Go.Text.{Text, text_eq, is_empty, codes}
use gopher_cni.Go.Dict.{Dict, get}

-- corev1.Container, with the fields that the program sets or reads.
pub record EnvVar : Type 0 where
  pub name : Text
  pub value : Text

pub record VolumeMount : Type 0 where
  pub name : Text
  pub mount_path : Text
  pub read_only : Bool

pub record ContainerPort : Type 0 where
  pub container_port : ℕ
  pub protocol : Text

pub record Container : Type 0 where
  pub name : Text
  pub image : Text
  pub args : List Text
  pub env : List EnvVar
  pub ports : List ContainerPort
  pub volume_mounts : List VolumeMount

-- corev1.Volume; the program makes only emptyDir volumes, others keep their name.
pub data VolumeSource : Type 0 where
  empty_dir : VolumeSource
  other_source : VolumeSource

pub record Volume : Type 0 where
  pub name : Text
  pub source : VolumeSource

-- corev1.PodDNSConfig; an option has a name and may have a value.
pub record DnsConfig : Type 0 where
  pub nameservers : List Text
  pub searches : List Text
  pub options : List (Text × Option Text)

-- corev1.PodSpec
pub record PodSpec : Type 0 where
  pub init_containers : List Container
  pub containers : List Container
  pub volumes : List Volume
  pub host_network : Bool
  pub dns_policy : Text
  pub dns_config : Option DnsConfig

-- corev1.Pod; a nil map reads as an empty one.
pub record Pod : Type 0 where
  pub namespace : Text
  pub name : Text
  pub labels : Dict
  pub annotations : Dict
  pub spec : PodSpec

-- An error of the API server, or one of the client's own.
pub data KubeError : Type 0 where
  api_error : Text → KubeError
  missing_key : Text → Text → Text → KubeError
  no_cluster_ip : Text → Text → KubeError

-- What the API server answers: a pod, the data of a secret, the clusterIP of a service.
pub record Clientset : Type 0 where
  pub get_pod : Text → Text → Result KubeError Pod
  pub get_secret : Text → Text → Result KubeError Dict
  pub get_service : Text → Text → Result KubeError Text

-- KubeClient.GetPod
unfoldable pub kube_get_pod : Clientset → Text → Text → Result KubeError Pod
kube_get_pod client namespace name = client.get_pod namespace name

secret_entry : Text → Text → Text → Option Text → Result KubeError Text
secret_entry namespace name key none = err (missing_key namespace name key)
secret_entry namespace name key (some val) = ok val

-- KubeClient.FetchSecretKey
unfoldable pub fetch_secret_key : Clientset → Text → Text → Text → Result KubeError Text
unfolding secret_entry
fetch_secret_key client namespace name key = do
  secret ← client.get_secret namespace name
  secret_entry namespace name key (get key secret)

-- KubeClient.GetServiceClusterIP
unfoldable pub get_service_cluster_ip : Clientset → Text → Text → Result KubeError Text
get_service_cluster_ip client namespace name = do
  ip ← client.get_service namespace name
  if is_empty ip || text_eq ip (codes "None") then err (no_cluster_ip namespace name) else ok ip

-- What client-go does for the two constructors: the configuration from a file under no master's
-- address, the one of the pod that the process runs in, and the clientset for a configuration.
pub record ClientGo (RestConfig : Type 0) : Type 0 where
  pub build_config_from_flags : Text → Text → Result Text RestConfig
  pub in_cluster_config : Result Text RestConfig
  pub new_for_config : RestConfig → Result Text Clientset

pub data ClientError : Type 0 where
  building_config : Text → Text → ClientError
  in_cluster_failed setting_up creating : Text → ClientError

module _ {RestConfig : Type 0} (go : ClientGo RestConfig) where
  -- NewClientFromConfigFile
  unfoldable pub new_client_from_config_file : Text → Result ClientError Clientset
  new_client_from_config_file kube_config_file = do
    kubeconfig ←
        wrap (building_config kube_config_file)
          (go.build_config_from_flags (codes "") kube_config_file)
    wrap setting_up (go.new_for_config kubeconfig)

  -- NewInClusterClient
  unfoldable pub new_in_cluster_client : Result ClientError Clientset
  new_in_cluster_client = do
    config ← wrap in_cluster_failed go.in_cluster_config
    wrap creating (go.new_for_config config)
